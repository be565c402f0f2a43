-- ===== src/Tests/OfManager.antt =====
-- src/session/session_manager.cpp: the theorems of the registry at concrete inputs.
use fix_protocol.Prelude.{ℕ, ◌≡◌, refl, none, [], Bytes, codes, equal}
use fix_protocol.Core.Types.{SessionId, fix_4_2, version_text}
use fix_protocol.Dictionary.Tables.{lookup, put}
use fix_protocol.Session.Manager.{SessionManager, make_key, create_session}
use fix_protocol.Session.Manager.Keys.{make_key-distinct}
use fix_protocol.Session.Manager.Registry.{Creates, create_session-Creates}

abbrev named : Bytes → Bytes → SessionId
named sender target = record {
  version = fix_4_2;
  sender_comp_id = sender;
  target_comp_id = target;
  qualifier = [];
}

abbrev us : SessionId
us = named (codes "US") (codes "THEM")

-- A registry with one session, which is the number 7.
abbrev one : SessionManager ℕ
one = (create_session us 7 (record { sessions = [] })).0

create_session-Creates_example : Creates us 8 one (create_session us 8 one)
create_session-Creates_example = create_session-Creates us 8 one

make_key-distinct_example :
    (us.sender_comp_id ≡ us.sender_comp_id)
    × (us.target_comp_id ≡ us.target_comp_id)
    × (us.version ≡ us.version)
    × (us.qualifier ≡ us.qualifier)
make_key-distinct_example =
    make_key-distinct us us ((λ e. cc), ((λ e. cc), tt))
      ((λ e. cc), ((λ e. cc), ((λ e. cc), ((λ e. cc), tt)))) ((λ e. cc), ((λ e. cc), tt))
      ((λ e. cc), ((λ e. cc), ((λ e. cc), ((λ e. cc), tt)))) refl

-- With colons in the CompIDs two sessions have one key, and the second is taken for the first.
clash :
    (create_session {H = ℕ}
      (named (codes "A") (codes "B:C"))
      2
      (create_session (named (codes "A:B") (codes "C")) 1 (record { sessions = [] })).0).1
    ≡ none
unfolding create_session lookup put equal make_key version_text
clash = refl
