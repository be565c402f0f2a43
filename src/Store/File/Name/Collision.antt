-- ===== src/Store/File/Name/Collision.antt =====
-- src/store/file_store.cpp, `make_prefix`: a long component imitates two short ones.
use fix_protocol.Prelude.{
  ℕ, ◌<◌, ◌%◌, ◌/◌, ◌^◌, ◌≡◌, ◌≢◌, refl, true, [], ◌∷◌, ◌++◌, Bytes, arith, length, take, All,
  lt→ltb, ltb-false, equal, ap, sym, take_all, length-take, append_assoc, append-nil,
}
use fix_protocol.Core.Types.{FixVersion}
use fix_protocol.Store.File.Name.{
  is_safe, hex_digit, escape_byte, escape, fnv, fingerprint, sanitize_component, component,
  make_prefix,
}

hex_digit_safe : (d : ℕ) → d < 16 → is_safe (hex_digit d) ≡ true
hex_digit_safe d h = ground arith

escape-safe : (xs : Bytes) → All (λ c. is_safe c ≡ true) xs → escape xs ≡ xs
unfolding escape escape_byte
escape-safe [] h = refl
escape-safe (x ∷ xs) h = rw (h.0, escape-safe xs h.1)

fingerprint-escape : (raw : Bytes) → component (fingerprint raw) ≡ fingerprint raw
unfolding fingerprint sanitize_component equal
fingerprint-escape raw =
    let h = fnv 0xcbf29ce484222325 raw in
    escape-safe (fingerprint raw) (
      hex_digit_safe (h / 2 ^ 28 % 16) (omega arith),
      (
        hex_digit_safe (h / 2 ^ 24 % 16) (omega arith),
        (
          hex_digit_safe (h / 2 ^ 20 % 16) (omega arith),
          (
            hex_digit_safe (h / 2 ^ 16 % 16) (omega arith),
            (
              hex_digit_safe (h / 2 ^ 12 % 16) (omega arith),
              (
                hex_digit_safe (h / 2 ^ 8 % 16) (omega arith),
                (
                  hex_digit_safe (h / 2 ^ 4 % 16) (omega arith),
                  (hex_digit_safe (h / 2 ^ 0 % 16) (omega arith), tt),
                ),
              ),
            ),
          ),
        ),
      ),
    )

component-long :
    (raw : Bytes)
    → 32 < length raw
    → component raw ≡ component (take 32 raw) ++ (b'~' ∷ fingerprint raw)
unfolding sanitize_component equal
component-long [] h = absurd (omega arith)
component-long (c ∷ cs) h =
    let cut = length-take 32 (c ∷ cs) in
    rw (lt→ltb 32 (length (c ∷ cs)) h) (
      rw (ltb-false 32 (length (take 32 (c ∷ cs))) (omega (arith, cut))) (
        ap (λ n. escape n ++ (b'~' ∷ fingerprint (c ∷ cs)))
          (sym (take_all 32 (take 32 (c ∷ cs)) (omega (arith, cut))))))

-- A session whose SenderCompID is longer than 32 bytes and that has no qualifier has the same file
-- names, if its TargetCompID is not empty, as the session of any version whose SenderCompID is the
-- first 32 of these bytes, whose TargetCompID is the fingerprint of the long one, and whose
-- qualifier is the TargetCompID of the first.
pub make_prefix-collides :
    (v w : FixVersion) (sender target : Bytes)
    → 32 < length sender
    → target ≢ []
    → make_prefix
        (record { version = v; sender_comp_id = sender; target_comp_id = target; qualifier = [] })
      ≡ make_prefix (record {
        version = w;
        sender_comp_id = take 32 sender;
        target_comp_id = fingerprint sender;
        qualifier = target;
      })
unfolding make_prefix equal
make_prefix-collides v w sender [] h ne = absurd (ne refl)
make_prefix-collides v w sender (t ∷ target) h ne =
    rw (component-long sender h, fingerprint-escape sender) (simp (append-nil, append_assoc))
