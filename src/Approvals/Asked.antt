-- ===== src/Approvals/Asked.antt =====
-- Asking for an approval.
use fastapi_langgraph_templa.Common.{
  ℕ, String, eq_refl, ◌≡◌, ap, ◌∙◌, [], ◌∷◌, ◌++◌, none, some, Option-cases, inl, inr,
}
use fastapi_langgraph_templa.Common.Table.{find, find-append}
use fastapi_langgraph_templa.Json.{Json}
use fastapi_langgraph_templa.Schema.{ApprovalRow, Db}
use fastapi_langgraph_templa.Approvals.{PendingAction, has_action_id, new_approval, create_pending}

pub create_pending-there :
    (hash : Json → String) (id : String) (now : ℕ) (action : PendingAction) (db : Db)
    (a : ApprovalRow)
    → find (has_action_id action.action_id) db.approvals ≡ some a
    → create_pending hash id now action db ≡ (db, a)
unfolding create_pending
create_pending-there hash id now action db a e = rw e

create_pending-fresh :
    (hash : Json → String) (id : String) (now : ℕ) (action : PendingAction) (db : Db)
    → find (has_action_id action.action_id) db.approvals ≡ none
    → create_pending hash id now action db ≡ (
      record db { approvals = db.approvals ++ new_approval hash id now action ∷ [] },
      new_approval hash id now action,
    )
unfolding create_pending
create_pending-fresh hash id now action db e = rw e

-- After an action was asked for, it is found, and is the row that was given back.
pub created_found :
    (hash : Json → String) (id : String) (now : ℕ) (action : PendingAction) (db : Db)
    → find (has_action_id action.action_id) (create_pending hash id now action db).0.approvals
      ≡ some (create_pending hash id now action db).1
created_found hash id now action db =
    elim (Option-cases (find (has_action_id action.action_id) db.approvals)) [
      | inl fresh ↦
          rw (create_pending-fresh hash id now action db fresh, find-append, fresh, eq_refl)
      | inr (a, there) ↦ rw (create_pending-there hash id now action db a there) there
    ]

-- Asking again for an action, at any time and with any other details, gives the approval that is
-- there already and changes nothing.
create_pending-create_pending :
    (hash hash' : Json → String) (id id' : String) (now later : ℕ) (action again : PendingAction)
    (db : Db)
    → again.action_id ≡ action.action_id
    → create_pending hash' id' later again (create_pending hash id now action db).0
      ≡ create_pending hash id now action db
create_pending-create_pending hash hash' id id' now later action again db e =
    create_pending-there hash' id' later again (create_pending hash id now action db).0
      (create_pending hash id now action db).1
      (ap (λ i. find (has_action_id i) (create_pending hash id now action db).0.approvals) e
        ∙ created_found hash id now action db)
