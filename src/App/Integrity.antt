-- ===== src/App/Integrity.antt =====
-- examples/demo-mobile/src/core/security/DeviceIntegrityGuard.ts. The platform and what stands in the
-- global scope are arguments.
use vesper_platform.Base.{
  String, Bool, true, false, Option, none, some, List, [], ◌∷◌, if◌then◌else◌,
}

pub data Platform : Type 0 where
  android : Platform
  ios : Platform
  other : Platform

-- Which of the suspicious names are there: Frida, and then, by `in`, the listed ones.
pub record Globals : Type 0 where
  pub frida : Bool
  pub is_present : String → Bool

pub data Violation : Type 0 where
  frida_runtime : Violation
  injection_hook : String → Violation

pub record DeviceIntegrityStatus : Type 0 where
  pub is_hardware_security_available : Bool
  pub is_strong_box_supported : Bool
  pub is_secure_enclave_supported : Bool
  pub is_device_compromised : Bool
  pub violation_reason : Option Violation

abbrev pub suspicious_globals : List String
suspicious_globals = "_frida" ∷ "__frida" ∷ "_xposed" ∷ "xposed" ∷ []

unfoldable pub first_hook : (String → Bool) → List String → Option Violation
first_hook is_present [] = none
first_hook is_present (name ∷ names) =
    let rest = first_hook is_present names in
    if is_present name then some (injection_hook name) else rest

-- The reason, where the device is compromised.
unfoldable pub detect_tampering : Globals → Option Violation
unfolding first_hook
detect_tampering g =
    if g.frida then some frida_runtime else first_hook g.is_present suspicious_globals

abbrev is_found : Option Violation → Bool
is_found none = false
is_found (some v) = true

unfoldable pub evaluate_integrity : Platform → Globals → DeviceIntegrityStatus
unfolding detect_tampering
evaluate_integrity android g = record {
  is_hardware_security_available = true;
  is_strong_box_supported = true;
  is_secure_enclave_supported = false;
  is_device_compromised = is_found (detect_tampering g);
  violation_reason = detect_tampering g;
}
evaluate_integrity ios g = record {
  is_hardware_security_available = true;
  is_strong_box_supported = false;
  is_secure_enclave_supported = true;
  is_device_compromised = is_found (detect_tampering g);
  violation_reason = detect_tampering g;
}
evaluate_integrity other g = record {
  is_hardware_security_available = true;
  is_strong_box_supported = false;
  is_secure_enclave_supported = false;
  is_device_compromised = false;
  violation_reason = none;
}
