-- ===== src/App/Profile.antt =====
-- examples/demo-mobile/src: features/profile/hooks/useProfile.ts, features/stores/hooks/useStores.ts and
-- core/theme/useTheme.ts. Coordinates are opaque numbers.
use vesper_platform.Base.{
  ℕ, ◌≡◌, refl, Bool, true, false, Option, none, some, List, ◌∷◌, ◌++◌, map, if◌then◌else◌,
}
use vesper_platform.Binary.Utf8.{Text}
use vesper_platform.Core.ErrorMatrix.{ErrorValue}
use vesper_platform.Core.Client.{Reply, answer, failure}
use vesper_platform.Adapters.Outcome.{is_ok}
use vesper_platform.App.Store.{
  AppState, ThemeMode, light, dark, system, Language, en, es, set_theme_mode, set_language, logout,
}

pub record UserProfileData : Type 0 where
  pub id : ℕ
  pub email : Text
  pub username : Text
  pub first_name : Text
  pub last_name : Text
  pub phone : Text
  pub avatar : Option Text

pub record Profile : Type 0 where
  pub profile_data : Option UserProfileData
  pub is_loading : Bool
  pub error : Option ErrorValue

-- The reply to the request of the profile. An earlier error stays.
unfoldable pub after_profile : Reply UserProfileData → Profile → Profile
after_profile (answer d) p = record p { profile_data = some d; is_loading = false }
after_profile (failure e) p = record p { error = some e; is_loading = false }

-- The effect, where the user is signed in or not.
unfoldable pub load_profile : Bool → Reply UserProfileData → Profile → Profile
unfolding after_profile
load_profile is_authenticated reply p =
    if is_authenticated
    then after_profile reply (record p { is_loading = true })
    else record p { profile_data = none }

unfoldable pub user_name : Profile → Option Text
user_name p = elim p.profile_data [
  | none ↦ none
  | some d ↦ some (d.first_name ++ b' ' ∷ d.last_name)
]

unfoldable pub next_theme : ThemeMode → ThemeMode
next_theme light = dark
next_theme dark = system
next_theme system = light

unfoldable pub toggle_theme_mode : AppState → AppState
unfolding next_theme
toggle_theme_mode s = set_theme_mode (next_theme s.theme_mode) s

unfoldable pub next_language : Language → Language
next_language en = es
next_language es = en

unfoldable pub toggle_language : AppState → AppState
unfolding next_language
toggle_language s = set_language (next_language s.language) s

abbrev pub handle_logout : AppState → AppState
handle_logout s = logout s

-- themeMode === 'system' ? systemScheme === 'dark' : themeMode === 'dark'
unfoldable pub is_dark_mode : ThemeMode → Bool → Bool
is_dark_mode system is_system_dark = is_system_dark
is_dark_mode dark is_system_dark = true
is_dark_mode light is_system_dark = false

-- Three presses of the theme button lead back.
next_theme_thrice : (t : ThemeMode) → next_theme (next_theme (next_theme t)) ≡ t
unfolding next_theme
next_theme_thrice light = refl
next_theme_thrice dark = refl
next_theme_thrice system = refl

-- Two presses of the language button lead back.
next_language_twice : (l : Language) → next_language (next_language l) ≡ l
unfolding next_language
next_language_twice en = refl
next_language_twice es = refl

-- A store, as the service describes it: the longitude stands before the latitude.
pub record RawStoreFeature (Degrees : Type 0) : Type 0 where
  pub coordinates : Degrees × Degrees
  pub id : Text
  pub name : Text
  pub distance : Text
  pub hours : Text
  pub address : Text
  pub image : Option Text

pub record StoreFeature (Degrees : Type 0) : Type 0 where
  pub id : Text
  pub name : Text
  pub distance : Text
  pub hours : Text
  pub address : Text
  pub image : Option Text
  pub latitude : Degrees
  pub longitude : Degrees

-- Why the stores are not shown: an answer that is not ok, or what was raised.
pub data StoresError : Type 0 where
  failed_to_fetch_stores : StoresError
  stores_raised : Text → StoresError

pub data StoresReply (Degrees : Type 0) : Type 0 where
  stores_with : ℕ → List (RawStoreFeature Degrees) → StoresReply Degrees
  stores_error : Text → StoresReply Degrees

pub record Stores (Degrees : Type 0) : Type 0 where
  pub stores : List (StoreFeature Degrees)
  pub is_loading : Bool
  pub error : Option StoresError

module _ {Degrees : Type 0} where
  unfoldable pub store_of : RawStoreFeature Degrees → StoreFeature Degrees
  store_of f = record {
    id = f.id;
    name = f.name;
    distance = f.distance;
    hours = f.hours;
    address = f.address;
    image = f.image;
    latitude = f.coordinates.1;
    longitude = f.coordinates.0;
  }

  unfoldable pub after_stores : StoresReply Degrees → Stores Degrees → Stores Degrees
  unfolding store_of
  after_stores (stores_error e) s = record s { error = some (stores_raised e); is_loading = false }
  after_stores (stores_with status fs) s =
      if is_ok status
      then record s { stores = map store_of fs; is_loading = false }
      else record s { error = some failed_to_fetch_stores; is_loading = false }

  unfoldable pub fetch_stores : StoresReply Degrees → Stores Degrees → Stores Degrees
  unfolding after_stores
  fetch_stores reply s = after_stores reply (record s { is_loading = true; error = none })
