-- ===== src/Netcfg/Identity.antt =====
-- internal/netcfg/identity.go: the MAC address and host name that the uplink sees. The OUI pools of
-- oui_data.go are generated from the IEEE registry: a table of profiles is an argument. The random
-- bytes are an argument as well.
pub mod Plausible
use mist_ui.Base.{
  ℕ, zero, suc, ◌+◌, ◌-◌, ◌*◌, ◌/◌, ◌%◌, ◌≤◌, ◌<◌, String, ◌≡◌, refl, sym, ap, subst, ◌∙◌, ◌≢◌, ◌↔◌,
  ◌⊎◌, inl, inr, Bool, true, false, not, ◌&&◌, ◌||◌, Option, none, some, List, [], ◌∷◌, ◌++◌, map,
  arith, if◌then◌else◌, ltb, leb, nat_eq, Bytes, str, bytes_eq, bytes_eq_iff, bytes_eq_refl,
  Bool-cases, Result, ok, err, ◌>>=◌, ◌>>◌, result_or, Result-cases, Option-cases, length, get_or,
  take, drop, length-append, take-append, drop-append, drop_past, get_or_past, take_part,
}

abbrev pub Oui : Type 0
Oui = ℕ × ℕ × ℕ

-- The copies of `decodeOUIs`, three bytes each; `none` is its panic on a remainder.
unfoldable pub prefixes : Bytes → Option (List Oui)
prefixes [] = some []
prefixes (a ∷ b ∷ c ∷ raw) = elim (prefixes raw) [ none ↦ none | some os ↦ some ((a, b, c) ∷ os) ]
prefixes _ = none

-- `decode_hex` is hex.DecodeString.
unfoldable pub decode_ouis : (Bytes → Result Bytes) → Bytes → Option (List Oui)
decode_ouis decode_hex h = elim (decode_hex h) [ err e ↦ none | ok raw ↦ prefixes raw ]

pub record Identity : Type 0 where
  pub mac : Bytes
  pub hostname : Bytes
  pub profile : Bytes

pub record Profile : Type 0 where
  pub key : Bytes
  pub label : Bytes
  pub ouis : List Oui
  pub names : List Bytes

abbrev pub generic : Profile
generic = record { key = str "generic"; label = str "Generic randomized"; ouis = []; names = [] }

-- `profiles`, by the pools of the three vendors.
unfoldable pub profiles : List Oui → List Oui → List Oui → List Profile
profiles apple samsung google =
    generic
    ∷ record {
      key = str "apple";
      label = str "Apple iPhone";
      ouis = apple;
      names =
          str "iPhone"
          ∷ str "iPhone"
          ∷ str "iPhone"
          ∷ str "iPhones-iPhone"
          ∷ str "Johns-iPhone"
          ∷ str "iPhone-15"
          ∷ str "iPhone-14"
          ∷ [];
    }
    ∷ record {
      key = str "samsung";
      label = str "Samsung Galaxy";
      ouis = samsung;
      names =
          str "Galaxy-S24"
          ∷ str "Galaxy-S24-Ultra"
          ∷ str "Galaxy-S23"
          ∷ str "Galaxy-S23-FE"
          ∷ str "Galaxy-S22"
          ∷ str "Galaxy-A54"
          ∷ str "Galaxy-A34"
          ∷ str "Galaxy-Z-Flip5"
          ∷ str "Galaxy-Note20"
          ∷ [];
    }
    ∷ record {
      key = str "pixel";
      label = str "Google Pixel";
      ouis = google;
      names =
          str "Pixel-8"
          ∷ str "Pixel-8-Pro"
          ∷ str "Pixel-8a"
          ∷ str "Pixel-7"
          ∷ str "Pixel-7-Pro"
          ∷ str "Pixel-7a"
          ∷ str "Pixel-6"
          ∷ str "Pixel-6a"
          ∷ str "Pixel-Fold"
          ∷ [];
    }
    ∷ []

unfoldable pub profile_infos : List Profile → List (Bytes × Bytes)
profile_infos [] = []
profile_infos (p ∷ ps) = (p.key, p.label) ∷ profile_infos ps

unfoldable pub valid_profile : List Profile → Bytes → Bool
valid_profile [] key = false
valid_profile (p ∷ ps) key = bytes_eq p.key key || valid_profile ps key

-- The first argument stands for `profiles[0]`.
unfoldable pub profile_by_key : Profile → List Profile → Bytes → Profile
profile_by_key first [] key = first
profile_by_key first (p ∷ ps) key = if bytes_eq p.key key then p else profile_by_key first ps key

-- The eight random bytes: two selectors and an address.
pub record Raw : Type 0 where
  pub sel1 : ℕ
  pub sel2 : ℕ
  pub b0 : ℕ
  pub b1 : ℕ
  pub b2 : ℕ
  pub b3 : ℕ
  pub b4 : ℕ
  pub b5 : ℕ

-- `b | 0x02` and `b &^ 0x01`.
abbrev set_local : ℕ → ℕ
set_local b = if nat_eq (b / 2 % 2) 0 then b + 2 else b

abbrev clear_group : ℕ → ℕ
clear_group b = b - b % 2

unfoldable pub hex_digit : ℕ → ℕ
hex_digit n = if ltb n 10 then 48 + n else 87 + n

abbrev colon : ℕ
colon = 58

-- `%02x:%02x:%02x:%02x:%02x:%02x`
unfoldable pub mac_text : ℕ → ℕ → ℕ → ℕ → ℕ → ℕ → Bytes
mac_text a b c d e f =
    hex_digit (a / 16)
    ∷ hex_digit (a % 16)
    ∷ colon
    ∷ hex_digit (b / 16)
    ∷ hex_digit (b % 16)
    ∷ colon
    ∷ hex_digit (c / 16)
    ∷ hex_digit (c % 16)
    ∷ colon
    ∷ hex_digit (d / 16)
    ∷ hex_digit (d % 16)
    ∷ colon
    ∷ hex_digit (e / 16)
    ∷ hex_digit (e % 16)
    ∷ colon
    ∷ hex_digit (f / 16)
    ∷ hex_digit (f % 16)
    ∷ []

-- The element at an index below the length.
unfoldable pub at_index : {A : Type 0} → A → List A → ℕ → A
at_index x [] n = x
at_index x (y ∷ ys) zero = y
at_index x (y ∷ ys) (suc n) = at_index x ys n

unfoldable pub host_of : List Bytes → ℕ → Bytes
host_of [] sel = []
host_of (n ∷ ns) sel = at_index n (n ∷ ns) (sel % length (n ∷ ns))

-- The part of GenerateIdentity after the random bytes, by the fields of the profile.
unfoldable pub identity_with : Bytes → List Oui → List Bytes → Raw → Identity
identity_with key [] names r = record {
  mac = mac_text (clear_group (set_local r.b0)) r.b1 r.b2 r.b3 r.b4 r.b5;
  hostname = [];
  profile = key;
}
identity_with key (o ∷ os) names r =
    let (a, b, c) = at_index o (o ∷ os) (r.sel1 % length (o ∷ os)) in
    record { mac = mac_text a b c r.b3 r.b4 r.b5; hostname = host_of names r.sel2; profile = key }

abbrev pub identity_of : Profile → Raw → Identity
identity_of p r = identity_with p.key p.ouis p.names r

unfoldable pub generate_identity : List Profile → Result Raw → Bytes → Result Identity
generate_identity table random key = do
  r ← random
  ok (identity_of (profile_by_key generic table key) r)

unfoldable pub random_mac : List Profile → Result Raw → Result Bytes
random_mac table random = do id ← generate_identity table random (str "generic"); ok id.mac
