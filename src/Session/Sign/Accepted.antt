-- ===== src/Session/Sign/Accepted.antt =====
-- src/middleware/Session.zig: which texts `load` accepts.
use dusty.Base.{
  ℕ, ◌/◌, ◌^◌, ◌≤◌, ◌≡◌, ◌⊎◌, refl, sym, ◌∙◌, Bool, true, false, not, List, ◌++◌, Option, none,
  some, arith, ◌==◌, leb, ltb, if◌then◌else◌, length, take, drop, get_or, bytes_eq, bytes_eq_iff,
  split_scalar, if_true, if_false, Bool-cases, inl, inr,
}
use dusty.Session.{SessionData}
use dusty.Session.Sign.{
  Primitives, Config, ns_per_s, overhead, read_expires, LoadError, LoadResult, loaded, refused,
  parse_pairs, check_expiry, load_bytes, load,
}

-- The bytes of a cookie that the key signed and whose time has not passed.
abbrev pub IsGenuine : Primitives → Config → ℕ → List ℕ → Type 0
IsGenuine p config now bytes =
    (overhead ≤ length bytes)
    × (get_or bytes 0 0 ≡ 1)
    × (take 32 (drop 8 bytes) ≡ p.mac (config.secret_key) (take 8 bytes ++ drop overhead bytes))
    × ((read_expires bytes ≡ 0) ⊎ (now / ns_per_s ≤ read_expires bytes))

abbrev pub session_in : List ℕ → SessionData → SessionData
session_in bytes session = record session {
  entries = parse_pairs (split_scalar 0 (drop overhead bytes)) (session.entries);
}

-- A test that was passed.
passed :
    (b : Bool) (e : LoadError) (rest : LoadResult) (after : SessionData)
    → (if b then refused e else rest) ≡ loaded after
    → (b ≡ false) × (rest ≡ loaded after)
passed true e rest after h = absurd (ground (arith, h))
passed false e rest after h = (refl, h)

check_expiry-loaded :
    (expires now : ℕ) (session after : SessionData)
    → check_expiry expires now (loaded session) ≡ loaded after
    → ((expires ≡ 0) ⊎ (now / ns_per_s ≤ expires)) × (session ≡ after)
check_expiry-loaded expires now session after h = elim (Bool-cases (expires == 0)) [
  | inl z ↦ (inl (ground (arith, z)), cc (sym (if_true _ _ _ z) ∙ h))
  | inr z ↦ elim (Bool-cases (leb (2 ^ 32) (now / ns_per_s))) [
    | inl y ↦ absurd (ground (arith, z, y, h))
    | inr y ↦
        let (early, same) =
          passed (ltb expires (now / ns_per_s)) _ (loaded session) after
            (sym (if_false _ _ _ y) ∙ sym (if_false _ _ _ z) ∙ h) in
        (inr (ground (arith, early)), cc same)
  ]
]

load_bytes-loaded :
    (p : Primitives) (config : Config) (now : ℕ) (o : Option (List ℕ)) (session after : SessionData)
    → load_bytes p config now o session ≡ loaded after
    → (bytes : List ℕ) × (o ≡ some bytes)
      × IsGenuine p config now bytes
      × (session_in bytes session ≡ after)
load_bytes-loaded p config now none session after h = absurd (ground (arith, h))
load_bytes-loaded p config now (some bytes) session after h =
    let (long, h1) = passed (ltb (length bytes) overhead) _ _ after h in
    let (version, h2) = passed (not (get_or bytes 0 0 == 1)) _ _ after h1 in
    let (signature, h3) =
      passed
        (not (
          bytes_eq (take 32 (drop 8 bytes))
            (p.mac (config.secret_key) (take 8 bytes ++ drop overhead bytes))))
        _ _ after h2 in
    let (time, same) =
      check_expiry-loaded (read_expires bytes) now (session_in bytes session) after h3 in
    (
      bytes,
      refl,
      (
        ground (arith, long),
        ground (arith, version),
        (bytes_eq_iff _ _).0 (ground (arith, signature)),
        time,
      ),
      same,
    )

-- Whatever text a request carries, and whatever the HMAC and the base64 code are, when `load`
-- accepts it, its decoded bytes are at least a header and a signature, with version 1, the
-- signature that the secret key gives for the header and the payload that stand in them, and an
-- expiry that is zero or not before the time; the entries that are then added are the pairs of that
-- payload.
pub load-IsGenuine :
    (p : Primitives) (config : Config) (now : ℕ) (raw : List ℕ) (session after : SessionData)
    → load p config now raw session ≡ loaded after
    → (bytes : List ℕ) × (p.decode raw ≡ some bytes)
      × IsGenuine p config now bytes
      × (session_in bytes session ≡ after)
unfolding load
load-IsGenuine p config now raw session after h =
    load_bytes-loaded p config now (p.decode raw) session after h
