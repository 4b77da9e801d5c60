-- ===== src/WebSocket/Ends.antt =====
-- src/websocket.zig: no call runs out of fuel. Each frame that is read takes two bytes at least.
use dusty.Base.{
  ℕ, ◌+◌, ◌≤◌, Bool, true, false, not, ◌&&◌, List, arith, bit_and, ltb, leb, ◌!=◌, ◌==◌, length,
  length-drop, Bool-cases, inl, inr, leb→le,
}
use dusty.WebSocket.{
  Frame, Error, Result, reserved_flags, unmasked_client_frame, masked_server_frame,
  large_control_frame, from_u4, ok, err, out_of_fuel,
}
use dusty.WebSocket.Reader.{
  Reader, and_then, ◌>>=◌, ◌>>◌, pure, reject_if, nth, is_control, read_slice_all, read_length,
  read_payload, read_frame,
}
use dusty.WebSocket.Stepwise.{either}

-- A reader that ends, and hands out `n` bytes at least when it succeeds.
abbrev pub Took : {A : Type 0} → ℕ → List ℕ → Result A × List ℕ → Type 0
Took n s (ok a, rest) = length rest + n ≤ length s
Took n s (err e, rest) = length rest ≤ length s
Took n s (out_of_fuel, rest) = ⊥

record Takes {A : Type 0} (n : ℕ) (m : Reader A) : Type 0 where
  at : (s : List ℕ) → Took n s (m s)

weaken :
    {B : Type 0} (n k : ℕ) (s rest : List ℕ) (r : Result B × List ℕ)
    → length rest + n ≤ length s
    → Took k rest r
    → Took (n + k) s r
weaken n k s rest (ok b, last) h g = omega arith
weaken n k s rest (err e, last) h g = omega arith
weaken n k s rest (out_of_fuel, last) h g = g

Took-and_then :
    {A B : Type 0} (n k : ℕ) (s : List ℕ) (r : Result A × List ℕ) (f : A → Reader B)
    → Took n s r
    → ((a : A) → Takes k (f a))
    → Took (n + k) s (and_then r f)
Took-and_then n k s (ok a, rest) f h g = weaken n k s rest (f a rest) h ((g a).at rest)
Took-and_then n k s (err e, rest) f h g = h
Took-and_then n k s (out_of_fuel, rest) f h g = h

Takes-bind :
    {A B : Type 0} (n k : ℕ) (m : Reader A) (f : A → Reader B)
    → Takes n m
    → ((a : A) → Takes k (f a))
    → Takes (n + k) (m >>= f)
Takes-bind n k m f h g = record { at = λ s. Took-and_then n k s (m s) f (h.at s) g }

reject_if-Takes : (b : Bool) (e : Error) → Takes 0 (reject_if b e)
reject_if-Takes true e = record { at = λ s. omega arith }
reject_if-Takes false e = record { at = λ s. omega arith }

slice-Took : (n : ℕ) (s : List ℕ) → Took n s (read_slice_all n s)
unfolding read_slice_all
slice-Took n s = elim (Bool-cases (leb n (length s))) [
  | inl h ↦ rw h (omega (arith, length-drop n s, leb→le n (length s) h))
  | inr h ↦ rw h (omega arith)
]

Took-less : {A : Type 0} (n : ℕ) (s : List ℕ) (r : Result A × List ℕ) → Took n s r → Took 0 s r
Took-less n s (ok a, rest) h = omega arith
Took-less n s (err e, rest) h = h
Took-less n s (out_of_fuel, rest) h = h

slice-Takes : (n : ℕ) → Takes 0 (read_slice_all n)
slice-Takes n = record { at = λ s. Took-less n s (read_slice_all n s) (slice-Took n s) }

Takes-map : {A B : Type 0} (m : Reader A) (g : A → B) → Takes 0 m → Takes 0 (m >>= λ a. pure (g a))
Takes-map m g h = Takes-bind 0 0 m (λ a. pure (g a)) h (λ a. record { at = λ s. omega arith })

read_length-Takes : (n : ℕ) → Takes 0 (read_length n)
unfolding read_length
read_length-Takes n =
    either (Takes 0) (n == 126) _ _
      (Takes-bind 0 0 (read_slice_all 2) _ (slice-Takes 2) (λ b. record { at = λ s. omega arith }))
      (either (Takes 0) (n == 127) _ _
        (Takes-bind 0 0 (read_slice_all 8) _ (slice-Takes 8)
          (λ b. record { at = λ s. omega arith }))
        (record { at = λ s. omega arith }))

read_payload-Takes : (c : Bool) (m n : ℕ) → Takes 0 (read_payload c m n)
unfolding read_payload
read_payload-Takes c m n =
    either (Takes 0) c _ _
      (Takes-bind 0 0 (read_slice_all 4) _ (slice-Takes 4) (λ key.
        Takes-bind 0 0 (reject_if (ltb m n) _) _ (reject_if-Takes (ltb m n) _) (λ u.
          Takes-bind 0 0 (read_slice_all n) _ (slice-Takes n)
            (λ b. record { at = λ s. omega arith }))))
      (Takes-bind 0 0 (reject_if (ltb m n) _) _ (reject_if-Takes (ltb m n) _) (λ u. slice-Takes n))

after_header :
    (b1 b2 b3 b4 masked : Bool) (e1 e2 e3 e4 : Error) (m short : ℕ) (g : List ℕ → Frame)
    → Takes 0 (do
      reject_if b1 e1
      reject_if b2 e2
      reject_if b3 e3
      reject_if b4 e4
      n ← read_length short
      payload ← read_payload masked m n
      pure (g payload))
after_header b1 b2 b3 b4 masked e1 e2 e3 e4 m short g =
    Takes-bind 0 0 _ _ (reject_if-Takes b1 e1) (λ u1.
      Takes-bind 0 0 _ _ (reject_if-Takes b2 e2) (λ u2.
        Takes-bind 0 0 _ _ (reject_if-Takes b3 e3) (λ u3.
          Takes-bind 0 0 _ _ (reject_if-Takes b4 e4) (λ u4.
            Takes-bind 0 0 _ _ (read_length-Takes short)
              (λ n. Takes-map _ g (read_payload-Takes masked m n))))))

read_frame-Takes : (c : Bool) (m : ℕ) → Takes 2 (read_frame c m)
unfolding read_frame
read_frame-Takes c m =
    Takes-bind 2 0 (read_slice_all 2) _ (record { at = slice-Took 2 })
      (λ header.
        let h0 = nth header 0 in
        let h1 = nth header 1 in
        let opcode = from_u4 (bit_and h0 0x0f) in
        let masked = bit_and h1 0x80 != 0 in
        let short = bit_and h1 0x7f in
        after_header (bit_and h0 0x70 != 0) (not c && not masked) (c && masked)
          (is_control opcode && ltb 125 short) masked reserved_flags unmasked_client_frame
          masked_server_frame large_control_frame m short
          (λ payload. record { fin = bit_and h0 0x80 != 0; opcode = opcode; payload = payload }))

-- A frame that is read takes two bytes at least, and reading one ends.
pub read_frame-Took : (c : Bool) (m : ℕ) (s : List ℕ) → Took 2 s (read_frame c m s)
read_frame-Took c m s = (read_frame-Takes c m).at s
