-- ===== src/EditLog/Log.antt =====
-- The log and the operations that append to it.
use omi_imo.Prelude.{
  ℕ, ◌+◌, Option, none, some, List, [], ◌∷◌, ◌++◌, Text, codes, ◌==◌, if◌then◌else◌,
}
use omi_imo.Identity.Json.{Value, Fields, end, field, obj, nat_field, text_field}
use omi_imo.Identity.Fnv.{receipt_of}

-- What a proposal or a commit does: `action`, `path` and `proposalText`.
pub record Edit : Type 0 where
  pub action : Text
  pub path : Text
  pub proposal_text : Text

-- `importedFrom` and `originalSeq`, which imported commits have.
pub record Origin : Type 0 where
  pub imported_from : Text
  pub original_seq : ℕ

-- One side of a conflict.
pub record Side : Type 0 where
  pub source : Text
  pub text : Text

-- The event types, each with its own properties.
pub data Body : Type 0 where
  proposal : Edit → Body
  commit : Edit → ℕ → Option Origin → Body
  undo : ℕ → Body
  redo : ℕ → Body
  conflict : Text → Text → Side → Side → Text → Body

pub record Event : Type 0 where
  pub body : Body
  pub seq : ℕ
  pub receipt : ℕ

pub record Log : Type 0 where
  pub events : List Event
  pub next_seq : ℕ

edit_fields : Edit → Fields → Fields
edit_fields e rest =
    text_field "action" e.action
      (text_field "path" e.path (text_field "proposalText" e.proposal_text rest))

origin_fields : Option Origin → Fields → Fields
origin_fields none rest = rest
origin_fields (some o) rest =
    text_field "importedFrom" o.imported_from (nat_field "originalSeq" o.original_seq rest)

side_value : Side → Value
side_value s = obj (text_field "importedFrom" s.source (text_field "proposalText" s.text end))

-- An event as the object that its receipt is taken of, before and after `receipt` is set.
unfoldable pub body_fields : Body → Fields → Fields
unfolding edit_fields origin_fields side_value
body_fields (proposal e) rest = text_field "type" (codes "proposal") (edit_fields e rest)
body_fields (commit e p o) rest =
    text_field "type" (codes "commit")
      (edit_fields e (nat_field "proposalSeq" p (origin_fields o rest)))
body_fields (undo c) rest = text_field "type" (codes "undo") (nat_field "commitSeq" c rest)
body_fields (redo c) rest = text_field "type" (codes "redo") (nat_field "commitSeq" c rest)
body_fields (conflict a p l r why) rest = text_field "type" (codes "conflict") (
    text_field "action" a (
      text_field "path" p (
        field (codes "left") (side_value l)
          (field (codes "right") (side_value r) (text_field "reason" why rest)))))

unfoldable pub compute_receipt : Body → ℕ → ℕ
compute_receipt body seq = receipt_of (obj (body_fields body (nat_field "seq" seq end)))

abbrev pub create_edit_log : Log
create_edit_log = record { events = []; next_seq = 1 }

-- `appendEvent`, with the entry that it returns.
abbrev pub entry_of : Log → Body → Event
entry_of log body = record {
  body = body;
  seq = log.next_seq;
  receipt = compute_receipt body log.next_seq;
}

unfoldable pub append_event : Log → Body → Log
append_event log body = record {
  events = log.events ++ entry_of log body ∷ [];
  next_seq = log.next_seq + 1;
}

unfoldable pub append_proposal : Log → Edit → Log
append_proposal log e = append_event log (proposal e)

unfoldable pub find_proposal : ℕ → List Event → Option Edit
find_proposal seq [] = none
find_proposal seq (e ∷ rest) =
    let here : Option Edit = elim e.body [
      | proposal edit ↦ if e.seq == seq then some edit else none
      | _ ↦ none
    ] in
    elim here [ some edit ↦ some edit | none ↦ find_proposal seq rest ]

-- `null`, and no change, where the log has no such proposal.
unfoldable pub commit_proposal : Log → ℕ → Option Log
commit_proposal log seq = elim (find_proposal seq log.events) [
  | none ↦ none
  | some edit ↦ some (append_event log (commit edit seq none))
]

unfoldable pub append_undo : Log → ℕ → Log
append_undo log seq = append_event log (undo seq)

unfoldable pub append_redo : Log → ℕ → Log
append_redo log seq = append_event log (redo seq)

unfoldable pub append_imported_commit : Log → Edit → ℕ → Origin → Log
append_imported_commit log edit proposal_seq origin =
    append_event log (commit edit proposal_seq (some origin))

-- `conflict.reason || "merge-conflict"`
unfoldable pub append_conflict : Log → Text → Text → Side → Side → Text → Log
append_conflict log action path left right [] =
    append_event log (conflict action path left right (codes "merge-conflict"))
append_conflict log action path left right (c ∷ reason) =
    append_event log (conflict action path left right (c ∷ reason))
