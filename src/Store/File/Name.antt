-- ===== src/Store/File/Name.antt =====
-- src/store/file_store.cpp: the names of the files of a store.
pub mod Distinct
pub mod Collision
use Prim.Native.Nat.{bit_xor}
use fix_protocol.Prelude.{
  ℕ, ◌+◌, ◌-◌, ◌*◌, ◌/◌, ◌%◌, ◌^◌, Bool, ◌&&◌, ◌||◌, [], ◌∷◌, ◌++◌, Bytes, codes, equal,
  if◌then◌else◌, ltb, leb, ◌==◌, length, take,
}
use fix_protocol.Core.Types.{SessionId}

-- A digit of `kHex`.
abbrev pub hex_digit : ℕ → ℕ
hex_digit d = if ltb d 10 then b'0' + d else b'A' + (d - 10)

abbrev pub is_safe : ℕ → Bool
is_safe u =
    leb b'A' u && leb u b'Z'
    || leb b'a' u && leb u b'z'
    || leb b'0' u && leb u b'9'
    || u == b'_'
    || u == b'-'

unfoldable pub escape_byte : ℕ → Bytes
escape_byte u = if is_safe u then u ∷ [] else b'%' ∷ hex_digit (u / 16) ∷ hex_digit (u % 16) ∷ []

unfoldable pub escape : Bytes → Bytes
unfolding escape_byte
escape [] = []
escape (u ∷ us) = escape_byte u ++ escape us

-- FNV-1a on 64 bits.
abbrev pub fnv_step : ℕ → ℕ → ℕ
fnv_step h c = bit_xor h c * 0x100000001b3 % 2 ^ 64

unfoldable pub fnv : ℕ → Bytes → ℕ
fnv h [] = h
fnv h (c ∷ cs) = fnv (fnv_step h c) cs

-- The hexadecimal digits of the low 32 bits.
abbrev pub low_hex : ℕ → Bytes
low_hex h =
    hex_digit (h / 2 ^ 28 % 16)
    ∷ hex_digit (h / 2 ^ 24 % 16)
    ∷ hex_digit (h / 2 ^ 20 % 16)
    ∷ hex_digit (h / 2 ^ 16 % 16)
    ∷ hex_digit (h / 2 ^ 12 % 16)
    ∷ hex_digit (h / 2 ^ 8 % 16)
    ∷ hex_digit (h / 2 ^ 4 % 16)
    ∷ hex_digit (h / 2 ^ 0 % 16)
    ∷ []

unfoldable pub fingerprint : Bytes → Bytes
unfolding fnv
fingerprint raw = low_hex (fnv 0xcbf29ce484222325 raw)

unfoldable pub sanitize_component : ℕ → Bytes → Bytes
unfolding escape fingerprint
sanitize_component cap raw =
    let head = escape (take cap raw) in
    if equal raw []
    then codes "%0"
    else if ltb cap (length raw)
    then head ++ (b'~' ∷ fingerprint raw)
    else head

-- The default cap.
abbrev pub component : Bytes → Bytes
component raw = sanitize_component 32 raw

abbrev pub qualified : Bytes → Bytes
qualified q = if equal q [] then [] else b'~' ∷ component q

unfoldable pub make_prefix : SessionId → Bytes
make_prefix sid =
    component sid.sender_comp_id
    ++ (b'~' ∷ (component sid.target_comp_id ++ qualified sid.qualifier))

unfoldable pub legacy_prefix : SessionId → Bytes
legacy_prefix sid = sid.sender_comp_id ++ (b'-' ∷ sid.target_comp_id)
