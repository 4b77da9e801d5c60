-- ===== src/Session/Sign/Trip.antt =====
-- src/middleware/Session.zig: a session that is signed and loaded again.
use dusty.Base.{
  ℕ, ◌+◌, ◌/◌, ◌^◌, ◌≤◌, ◌<◌, ◌≡◌, refl, ap, sym, ◌∙◌, Bool, false, not, List, [], ◌∷◌, ◌++◌, All,
  Option, none, some, arith, ◌==◌, leb, ltb, if◌then◌else◌, length, take, drop, min, bytes_eq,
  bytes_eq_self, split_scalar, split_scalar-append, Lacks, if_true, if_false, Bool-cases, inl, inr,
  take-append, drop-append, length-append, append-nil, append_assoc,
}
use dusty.Base.Bits.{IsByte}
use dusty.Session.{Entries, SessionData, max_entries, has_zero, empty_session}
use dusty.Session.Map.{IsTidy}
use dusty.Session.Sign.{
  Primitives, IsLawful, Config, ns_per_s, overhead, header_bytes, read_expires, payload_of,
  expires_at, signed_bytes, sign_session, LoadResult, loaded, refused, parse_pairs, check_expiry,
  load_bytes, load, encoded, invalid_signature,
}

abbrev pub IsBytes : Entries → Type 0
IsBytes = All (λ e. All IsByte (e.0) × All IsByte (e.1))

All-append {ℓ κ} :
    {A : Type ℓ} (P : A → Type κ) (xs ys : List A) → All P xs → All P ys → All P (xs ++ ys)
All-append P [] ys h g = g
All-append P (x ∷ xs) ys h g = (h.0, All-append P xs ys h.1 g)

has_zero-Lacks : (bs : List ℕ) → has_zero bs ≡ false → Lacks 0 bs
unfolding has_zero
has_zero-Lacks [] h = tt
has_zero-Lacks (b ∷ bs) h = (ground (arith, h), has_zero-Lacks bs (ground (arith, h)))

IsBytes-payload_of : (entries : Entries) → IsBytes entries → All IsByte (payload_of entries)
unfolding payload_of
IsBytes-payload_of [] h = tt
IsBytes-payload_of ((k, v) ∷ entries) ((kb, vb), rest) =
    All-append IsByte k _ kb
      (omega arith, All-append IsByte v _ vb (omega arith, IsBytes-payload_of entries rest))

IsByte-header_bytes : (n : ℕ) → All IsByte (header_bytes n)
IsByte-header_bytes n = (
  omega arith,
  (
    omega arith,
    (omega arith, (omega arith, (omega arith, (omega arith, (omega arith, (omega arith, tt)))))),
  ),
)

read_expires-header_bytes :
    (n : ℕ) (rest : List ℕ) → n < 2 ^ 32 → read_expires (header_bytes n ++ rest) ≡ n
read_expires-header_bytes n rest h = omega (arith, h)

-- The parts of a payload are its keys and values, and one more that is empty.
parse_pairs-payload_of :
    (entries before : Entries)
    → IsTidy entries
    → length before + length entries ≤ max_entries
    → parse_pairs (split_scalar 0 (payload_of entries)) before ≡ before ++ entries
unfolding payload_of parse_pairs split_scalar
parse_pairs-payload_of [] before tidy h = sym (append-nil before)
parse_pairs-payload_of ((k, v) ∷ entries) before (fresh, kz, vz, tidy) h =
    let longer = length-append before ((k, v) ∷ []) in
    ap (λ parts. parse_pairs parts before)
      (split_scalar-append 0 k (v ++ 0 ∷ payload_of entries) (has_zero-Lacks k kz)
        ∙ ap (λ parts. k ∷ parts)
            (split_scalar-append 0 v (payload_of entries) (has_zero-Lacks v vz)))
    ∙ if_false (leb max_entries (length before)) _ _ (ground (arith, h))
    ∙ parse_pairs-payload_of entries (before ++ (k, v) ∷ []) tidy (omega (arith, h, longer))
    ∙ append_assoc before ((k, v) ∷ []) entries

-- A time that the expiry of a session signed at `now` has not passed.
abbrev pub IsUnexpired : Option ℕ → ℕ → ℕ → Type 0
IsUnexpired none now later = Unit
IsUnexpired (some age) now later =
    (later / ns_per_s ≤ (now + age) / ns_per_s) × (later / ns_per_s < 2 ^ 32)

check_expiry-expires_at :
    (age : Option ℕ) (now later expires : ℕ) (session : LoadResult)
    → IsUnexpired age now later
    → expires_at age now ≡ some expires
    → (expires < 2 ^ 32) × (check_expiry expires later session ≡ session)
check_expiry-expires_at none now later expires session h e = ground (arith, e)
check_expiry-expires_at (some age) now later expires session (early, small) e =
    elim (Bool-cases (leb (2 ^ 63) ((now + age) / ns_per_s))) [
      | inl f ↦ absurd (ground (arith, f, e))
      | inr f ↦
          let is : min ((now + age) / ns_per_s) 4294967295 ≡ expires = ground (arith, f, e) in
          (
            omega (arith, is),
            elim (Bool-cases (expires == 0)) [
              | inl z ↦ if_true _ _ _ z
              | inr z ↦
                  if_false _ _ _ z
                  ∙ if_false (leb (2 ^ 32) (later / ns_per_s)) _ _ (ground (arith, small))
                  ∙ if_false (ltb expires (later / ns_per_s)) _ _ (ground (arith, is, early, small))
            ],
          )
    ]

-- What follows the check of the version, on a signature, a payload and an expiry.
abbrev verdict : Primitives → Config → ℕ → List ℕ → List ℕ → ℕ → ℕ → SessionData → LoadResult
verdict p config later sig payload expires n session =
    if not (bytes_eq sig (p.mac (config.secret_key) (header_bytes expires ++ payload)))
    then refused invalid_signature
    else check_expiry n later (
        loaded
          (record session { entries = parse_pairs (split_scalar 0 payload) (session.entries) }))

load_bytes-signed_bytes :
    (p : Primitives)
    → IsLawful p
    → (config : Config) (later expires : ℕ) (payload : List ℕ) (session : SessionData)
    → expires < 2 ^ 32
    → load_bytes p config later (some (signed_bytes p (config.secret_key) expires payload)) session
      ≡ check_expiry expires later (
          loaded
            (record session { entries = parse_pairs (split_scalar 0 payload) (session.entries) }))
load_bytes-signed_bytes p laws config later expires payload session h =
    let m = p.mac (config.secret_key) (header_bytes expires ++ payload) in
    let size : length m ≡ 32 =
      laws.mac_length (config.secret_key) (header_bytes expires ++ payload) in
    let front : take 32 (m ++ payload) ≡ m = take-append m payload 32 size in
    let back : drop 32 (m ++ payload) ≡ payload = drop-append m payload 32 size in
    let long = length-append m payload in
    if_false (ltb (length (signed_bytes p (config.secret_key) expires payload)) overhead) _ _
      (ground (arith, long, size))
    ∙ ap
        (λ t.
          verdict p config later t (drop 32 (m ++ payload)) expires
            (read_expires (header_bytes expires)) session)
        front
    ∙ ap (λ t. verdict p config later m t expires (read_expires (header_bytes expires)) session)
        back
    ∙ ap (λ n. verdict p config later m payload expires n session)
        (read_expires-header_bytes expires [] h)
    ∙ if_false (not (bytes_eq m m)) _ _ (ap not (bytes_eq_self m))

pub IsByte-signed_bytes :
    (p : Primitives)
    → IsLawful p
    → (key : List ℕ) (expires : ℕ) (entries : Entries) → IsBytes entries
    → All IsByte (signed_bytes p key expires (payload_of entries))
IsByte-signed_bytes p laws key expires entries bytes =
    All-append IsByte (header_bytes expires) _ (IsByte-header_bytes expires)
      (All-append IsByte _ _ (laws.mac_bytes key _) (IsBytes-payload_of entries bytes))

signed_text :
    (p : Primitives)
    → IsLawful p
    → (config : Config) (entries : Entries) (modified : Bool) (now later : ℕ) (text : List ℕ)
    → IsTidy entries
    → length entries ≤ max_entries
    → IsBytes entries
    → IsUnexpired (config.max_age) now later
    → (o : Option ℕ) → expires_at (config.max_age) now ≡ o
    → encoded p config (record { entries = entries; modified = modified }) o ≡ some text
    → load_bytes p config later (p.decode text) empty_session
      ≡ loaded (record { entries = entries; modified = false })
signed_text p laws config entries modified now later text tidy small bytes fresh none e h =
    absurd (ground (arith, h))
signed_text p laws config entries modified now later text tidy small bytes fresh (some expires) e
      h =
    let raw = signed_bytes p (config.secret_key) expires (payload_of entries) in
    let same : p.encode raw ≡ text = ground (arith, h) in
    let parsed = parse_pairs-payload_of entries [] tidy (omega (arith, small)) in
    let times =
      check_expiry-expires_at (config.max_age) now later expires
        (loaded (record { entries = entries; modified = false })) fresh e in
    ap (λ t. load_bytes p config later (p.decode t) empty_session) (sym same)
    ∙ ap (λ o. load_bytes p config later o empty_session)
        (laws.decoded raw (IsByte-signed_bytes p laws (config.secret_key) expires entries bytes))
    ∙ load_bytes-signed_bytes p laws config later expires (payload_of entries) empty_session times.0
    ∙ ap (λ es. check_expiry expires later (loaded (record { entries = es; modified = false })))
        parsed
    ∙ times.1

-- A session signed at one time and loaded at a later one that its age allows, under the same key and
-- with an HMAC of 32 bytes and a base64 code that is decoded again: keys that differ, no zero byte
-- and at most sixteen entries, which `set` and `remove` keep, come back as they were, in order and
-- unmodified, also an empty key or value.
pub load-sign_session :
    (p : Primitives)
    → IsLawful p
    → (config : Config) (entries : Entries) (modified : Bool) (now later : ℕ) (text : List ℕ)
    → IsTidy entries
    → length entries ≤ max_entries
    → IsBytes entries
    → IsUnexpired (config.max_age) now later
    → sign_session p config (record { entries = entries; modified = modified }) now ≡ some text
    → load p config later text empty_session
      ≡ loaded (record { entries = entries; modified = false })
unfolding sign_session load
load-sign_session p laws config entries modified now later text tidy small bytes fresh h =
    signed_text p laws config entries modified now later text tidy small bytes fresh
      (expires_at (config.max_age) now) refl h
