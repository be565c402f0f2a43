-- ===== src/Session/Manager/Registry.antt =====
-- src/session/session_manager.cpp: what is found in the registry.
use fix_protocol.Prelude.{
  ◌≡◌, refl, Bool, true, false, Option, none, some, [], ◌∷◌, Bytes, arith, equal, equal_iff,
  if◌then◌else◌, sym, ap, ◌∙◌,
}
use fix_protocol.Core.Types.{SessionId}
use fix_protocol.Dictionary.Tables.{Table, lookup, put}
use fix_protocol.Dictionary.Names.{lookup-put}
use fix_protocol.Session.Manager.{
  make_key, Registered, SessionManager, emplaced, create_session, session_of, find, erase, remove,
  is_there,
}

abbrev pub created : {H : Type 0} → H → Option H → Option H
created h none = some h
created h (some _) = none

abbrev pub found_after : {H : Type 0} → H → Option H → Option H
found_after h none = some h
found_after h (some g) = some g

-- What `create_session` leaves: a session that was there stays the one that is found and none is
-- returned, or the new one is returned and found; for other keys nothing changes.
pub record Creates {H : Type 0} (sid : SessionId) (h : H) (m : SessionManager H)
    (r : SessionManager H × Option H) : Type 0 where
  pub result : r.1 ≡ created h (find sid m)
  pub found : find sid r.0 ≡ found_after h (find sid m)
  pub others :
      (other : SessionId)
      → equal (make_key sid) (make_key other) ≡ false
      → find other r.0 ≡ find other m

emplaced-Creates :
    {H : Type 0} (sid : SessionId) (h : H) (m : SessionManager H) (o : Option (Registered H))
    → lookup (make_key sid) m.sessions ≡ o
    → Creates sid h m (emplaced (make_key sid) (record { id = sid; session = h }) m o)
unfolding find
emplaced-Creates sid h m (some g) e = record {
  result = ap (λ o. created h (session_of o)) (sym e);
  found = ap session_of e ∙ ap (λ o. found_after h (session_of o)) (sym e);
  others = λ other ne. refl;
}
emplaced-Creates {H} sid h m none e =
    let key = make_key sid in
    let r : Registered H = record { id = sid; session = h } in
    let sessions = put key r m.sessions in
    let here : lookup key sessions ≡ some r =
      lookup-put key key r m.sessions ∙ rw ((equal_iff key key).1 refl) refl in
    let there : (k : Bytes) → equal key k ≡ false → lookup k sessions ≡ lookup k m.sessions =
      λ k ne. lookup-put k key r m.sessions ∙ rw ne refl in
    record {
      result = ap (λ o. created h (session_of o)) (sym e);
      found = ap session_of here ∙ ap (λ o. found_after h (session_of o)) (sym e);
      others = λ other ne. ap session_of (there (make_key other) ne);
    }

-- `create_session` never replaces a session: where one with the same key is registered it returns
-- nothing and that one is still found; otherwise it returns the new session, which is then found. What
-- is found under other keys does not change.
pub create_session-Creates :
    {H : Type 0} (sid : SessionId) (h : H) (m : SessionManager H)
    → Creates sid h m (create_session sid h m)
unfolding create_session
create_session-Creates sid h m = emplaced-Creates sid h m (lookup (make_key sid) m.sessions) refl

lookup-erase :
    {V : Type 0} (k j : Bytes) (t : Table V)
    → lookup k (erase j t) ≡ (if equal j k then none else lookup k t)
unfolding lookup erase
lookup-erase k j [] = ground arith
lookup-erase k j ((i, v) ∷ t) =
    ground (arith, lookup-erase k j t, equal_iff i j, equal_iff i k, equal_iff j k)

session_of-if :
    {H : Type 0} (b : Bool) (o : Option (Registered H))
    → session_of (if b then none else o) ≡ (if b then none else session_of o)
session_of-if true o = refl
session_of-if false o = refl

is_there-session_of :
    {H : Type 0} (o : Option (Registered H)) → is_there o ≡ is_there (session_of o)
is_there-session_of none = refl
is_there-session_of (some r) = refl

-- After `remove` the session is not found any more, the others are found as before, and the result
-- says whether there was one.
pub remove-removes :
    {H : Type 0} (sid other : SessionId) (m : SessionManager H)
    → (find other (remove sid m).0
        ≡ (if equal (make_key sid) (make_key other) then none else find other m))
      × ((remove sid m).1 ≡ is_there (find sid m))
unfolding find remove
remove-removes sid other m = (
  ap session_of (lookup-erase (make_key other) (make_key sid) m.sessions)
      ∙ session_of-if (equal (make_key sid) (make_key other)) (lookup (make_key other) m.sessions),
  is_there-session_of (lookup (make_key sid) m.sessions),
)
