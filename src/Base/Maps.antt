-- ===== src/Base/Maps.antt =====
-- `Map<string, V>`: a function from keys, with the JavaScript names of its operations.
use Prim.Native.String.{String}
use mathlib.Core.Path.{◌≡◌}
use mathlib.Core.Option.{Option, none, some}
use text.Mathlib.Text.{◌==◌ as str_eq}
use text.Mathlib.TextPositions.{eq_refl}
use vesper_platform.Base.Tests.{if◌then◌else◌}

abbrev pub StringMap {ℓ} : Type ℓ → Type ℓ
StringMap V = String → Option V

module _ {ℓ} {V : Type ℓ} where
  abbrev pub empty_map : StringMap V
  empty_map k = none

  -- map.set(k, v)
  abbrev pub map_set : String → V → StringMap V → StringMap V
  map_set k v m j = if str_eq k j then some v else m j

  -- map.delete(k)
  abbrev pub map_delete : String → StringMap V → StringMap V
  map_delete k m j = if str_eq k j then none else m j

  pub map_set_self : (k : String) (v : V) (m : StringMap V) → map_set k v m k ≡ some v
  map_set_self k v m = rw (eq_refl k)

  pub map_delete_self : (k : String) (m : StringMap V) → map_delete k m k ≡ none
  map_delete_self k m = rw (eq_refl k)
