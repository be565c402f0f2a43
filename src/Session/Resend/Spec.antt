-- ===== src/Session/Resend/Spec.antt =====
-- src/session/session.cpp, `handle_resend_request`: what the frames of a replay have to be.
use mathlib.Core.List.{Memᴰ}
use mathlib.Core.List.Memᴰ
use fix_protocol.Prelude.{
  ℕ, ◌+◌, ◌≤◌, ◌<◌, ◌≡◌, ◌⊎◌, inl, inr, true, false, none, some, List, [], ◌∷◌, ◌++◌, Bytes, arith,
  sym, ap, subst,
}
use fix_protocol.Core.Types.{ErrorCode, ok, err}
use fix_protocol.Core.Message.{Message, msg_type}
use fix_protocol.Serializer.{Builder, try_serialize}
use fix_protocol.Store.SortedMap.{Entry, entry, Above, Ascending}
use fix_protocol.Session.{Session, Env}
use fix_protocol.Session.Sending.{envelope}
use fix_protocol.Session.Sending.Wire.{wire_out}
use fix_protocol.Session.Resend.{is_admin_msg, stored_message}
use fix_protocol.Session.Resend.Duplicate.{filler_to, IsDuplicate}

module _ {S : Type 0} (env : Env S) (source : List Entry) (origin : Session S) where
  -- The message is an application message that the store has under the number.
  pub record Original (n : ℕ) (m : Message) : Type 0 where
    pub wire : Bytes
    pub kept : Memᴰ (entry n wire) source
    pub parsed : stored_message wire ≡ some m
    pub application : is_admin_msg (msg_type m) ≡ false

  -- The stored frame cannot or must not be sent again under the number: the parser reads no message
  -- with a type in it, or one of the session's own types, or one of which the duplicate cannot be
  -- serialized.
  pub data Lost (n : ℕ) (wire : Bytes) : Type 0 where
    corrupt : stored_message wire ≡ none → Lost n wire
    admin :
        (m : Message)
        → stored_message wire ≡ some m
        → is_admin_msg (msg_type m) ≡ true
        → Lost n wire
    unserializable :
        (m d : Message) (p : Builder) (e : ErrorCode)
        → stored_message wire ≡ some m
        → IsDuplicate m d
        → (try_serialize d (envelope env n origin) p).1 ≡ err e
        → Lost n wire

  -- Nothing that the store has under the numbers from `b` on and below `c` can be sent again.
  abbrev pub Gone : ℕ → ℕ → Type 0
  Gone b c = (k : ℕ) (wire : Bytes) → Memᴰ (entry k wire) source → b ≤ k → k < c → Lost k wire

  -- The frames cover the numbers from `a` up to `b`, without a hole and without an overlap: each is
  -- a gap-fill whose number is the first of those it fills and whose NewSeqNo is the one behind them,
  -- none of which can be sent again, or an application message of the store under its own number,
  -- marked as a possible duplicate.
  pub data Covers : ℕ → ℕ → List Bytes → Type 0 where
    nothing : (a : ℕ) → Covers a a []
    fills :
        {a b : ℕ} {ws : List Bytes} (c : ℕ) (w : Bytes) (p : Builder)
        → Covers a b ws
        → b < c
        → Gone b c
        → (try_serialize (filler_to c) (envelope env b origin) p).1 ≡ ok w
        → Covers a c (ws ++ w ∷ [])
    resends :
        {a b : ℕ} {ws : List Bytes} (m d : Message) (w : Bytes) (p : Builder)
        → Covers a b ws
        → Original b m
        → IsDuplicate m d
        → (try_serialize d (envelope env b origin) p).1 ≡ ok w
        → Covers a (b + 1) (ws ++ w ∷ [])

  -- The frames that a replay puts on the wire cover the range.
  pub record Replayed (first last : ℕ) (t : Session S) : Type 0 where
    pub frames : List Bytes
    pub out : wire_out t.effects ≡ wire_out origin.effects ++ frames
    pub covers : Covers first (last + 1) frames

  -- Of the frames of the store, the replay has still to see those of `rest`.
  abbrev pub Seen : ℕ → List Entry → Type 0
  Seen c rest =
      (k : ℕ) (wire : Bytes)
      → Memᴰ (entry k wire) source
      → Memᴰ (entry k wire) rest ⊎ (k < c) ⊎ Lost k wire

  Above-below : (n : ℕ) (fs : List Entry) (f : Entry) → Above n fs → Memᴰ f fs → n < f.seq
  Above-below n [] f above m = absurd (Memᴰ.not-nil m)
  Above-below n (g ∷ fs) f above m = elim (Memᴰ.cases_cons m) [
    | inl same ↦ subst (λ (e : Entry). n < e.seq) (sym same) above.0
    | inr later ↦ let x = Above-below g.seq fs f above.1 later in let y = above.0 in omega arith
  ]

  pub Above-from : (n : ℕ) (fs : List Entry) → Above n fs → (f : Entry) → Memᴰ f fs → n + 1 ≤ f.seq
  Above-from n fs above f m = let x = Above-below n fs f above m in omega arith

  pub Above-Ascending : (n : ℕ) (fs : List Entry) → Above n fs → Ascending fs
  Above-Ascending n [] above = tt
  Above-Ascending n (g ∷ fs) above = above.1

  -- Only frames from a number `n` on are left.
  pub Seen-Gone :
      (c n : ℕ) (rest : List Entry)
      → Seen c rest
      → ((f : Entry) → Memᴰ f rest → n ≤ f.seq)
      → Gone c n
  Seen-Gone c n rest seen from k wire m ge lt = elim (seen k wire m) [
    | inl ahead ↦ absurd (let x = from (entry k wire) ahead in omega arith)
    | inr (inl before) ↦ absurd (omega arith)
    | inr (inr lost) ↦ lost
  ]

  pub from_head :
      (f : Entry) (fs : List Entry) → Above f.seq fs → (g : Entry) → Memᴰ g (f ∷ fs) → f.seq ≤ g.seq
  from_head f fs above g m = elim (Memᴰ.cases_cons m) [
    | inl same ↦ let x = ap (λ (e : Entry). e.seq) same in omega arith
    | inr later ↦ let x = Above-below f.seq fs g above later in omega arith
  ]

  -- The first frame that is left is lost.
  pub Seen-Lost :
      (c n : ℕ) (wire : Bytes) (fs : List Entry)
      → Lost n wire
      → Seen c (entry n wire ∷ fs)
      → Seen c fs
  Seen-Lost c n wire fs lost seen k other m = elim (seen k other m) [
    | inl ahead ↦ elim (Memᴰ.cases_cons ahead) [
      | inl same ↦ inr (inr (subst (λ (e : Entry). Lost e.seq e.value) (sym same) lost))
      | inr later ↦ inl later
    ]
    | inr rest ↦ inr rest
  ]

  -- The cursor goes past the first frame that is left.
  pub Seen-past :
      (c d : ℕ) (f : Entry) (fs : List Entry) → f.seq < d → c ≤ d → Seen c (f ∷ fs) → Seen d fs
  Seen-past c d f fs lt le seen k wire m = elim (seen k wire m) [
    | inl ahead ↦ elim (Memᴰ.cases_cons ahead) [
      | inl same ↦ inr (inl (let x = ap (λ (e : Entry). e.seq) same in omega arith))
      | inr later ↦ inl later
    ]
    | inr (inl before) ↦ inr (inl (omega arith))
    | inr (inr lost) ↦ inr (inr lost)
  ]
