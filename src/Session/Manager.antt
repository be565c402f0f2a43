-- ===== src/Session/Manager.antt =====
-- src/session/session_manager.cpp: the registry of the sessions.
pub mod Keys
pub mod Registry
use fix_protocol.Prelude.{
  ℕ, suc, ◌+◌, Bool, true, false, not, ◌&&◌, Option, none, some, List, [], ◌∷◌, ◌++◌, Bytes, equal,
  if◌then◌else◌,
}
use fix_protocol.Core.Types.{SessionId, version_text}
use fix_protocol.Dictionary.Tables.{Table, lookup, put}

unfoldable pub make_key : SessionId → Bytes
make_key sid =
    sid.sender_comp_id
    ++ (b':'
        ∷ (sid.target_comp_id ++ (b':' ∷ (version_text sid.version ++ (b':' ∷ sid.qualifier)))))

-- A session that is registered: its identifier, and what a pointer to it is.
pub record Registered (H : Type 0) : Type 0 where
  pub id : SessionId
  pub session : H

pub record SessionManager (H : Type 0) : Type 0 where
  pub sessions : Table (Registered H)

-- The end of `create_session`, for a session that was made.
abbrev pub emplaced :
    {H : Type 0}
    → Bytes
    → Registered H
    → SessionManager H
    → Option (Registered H)
    → SessionManager H × Option H
emplaced key r m (some _) = (m, none)
emplaced key r m none = (record m { sessions = put key r m.sessions }, some r.session)

unfoldable pub create_session :
    {H : Type 0} → SessionId → H → SessionManager H → SessionManager H × Option H
create_session sid h m =
    let key = make_key sid in
    emplaced key (record { id = sid; session = h }) m (lookup key m.sessions)

abbrev pub session_of : {H : Type 0} → Option (Registered H) → Option H
session_of none = none
session_of (some r) = some r.session

unfoldable pub find : {H : Type 0} → SessionId → SessionManager H → Option H
find sid m = session_of (lookup (make_key sid) m.sessions)

-- The loop over the sessions, in the order of the unordered map.
unfoldable pub find_by_comp_ids : {H : Type 0} → Bytes → Bytes → Table (Registered H) → Option H
find_by_comp_ids sender target [] = none
find_by_comp_ids sender target ((key, r) ∷ rest) =
    if equal r.id.sender_comp_id sender && equal r.id.target_comp_id target
    then some r.session
    else find_by_comp_ids sender target rest

unfoldable pub erase : {V : Type 0} → Bytes → Table V → Table V
erase k [] = []
erase k ((j, v) ∷ t) = if equal j k then erase k t else (j, v) ∷ erase k t

abbrev pub is_there : {V : Type 0} → Option V → Bool
is_there none = false
is_there (some _) = true

unfoldable pub remove : {H : Type 0} → SessionId → SessionManager H → SessionManager H × Bool
remove sid m =
    let key = make_key sid in
    (record m { sessions = erase key m.sessions }, is_there (lookup key m.sessions))

-- The calls of the callback, one after another on what it changes.
unfoldable pub for_all : {H W : Type 0} → (H → W → W) → Table (Registered H) → W → W
for_all fn [] w = w
for_all fn ((key, r) ∷ rest) w = for_all fn rest (fn r.session w)

-- The callback may change the registry, which is a part of the world; the sessions that it is called
-- with are those of the start.
unfoldable pub for_each :
    {H W : Type 0}
    → (Table (Registered H) → Table (Registered H))
    → (W → SessionManager H)
    → (H → W → W)
    → W
    → W
for_each order manager fn w = for_all fn (order (manager w).sessions) w

unfoldable pub count : {H : Type 0} → Table (Registered H) → ℕ
count [] = 0
count (_ ∷ rest) = suc (count rest)
