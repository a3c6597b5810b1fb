-- ===== src/Agent/Heard.antt =====
-- What a list that the agent keeps gets from a request: the controller's outputs and replies, in
-- their order, each with what its callback appends.
use autoware_agent.Base.{
  ◌≡◌, refl, sym, ap, subst, ◌∙◌, List, [], ◌∷◌, ◌++◌, append_assoc, append_nil,
}
use autoware_agent.Geometry.{Lanes}
use autoware_agent.Trip.State.{Output}
use autoware_agent.Controller.{AutowareController, Reply}
use autoware_agent.Agent.{Agent, on_sent, on_reply, on_all_sent, on_all_replies, settle, sent_of}
use autoware_agent.Agent.Sane.{on_all_sent-controller}

-- What a history, newest first, amounts to, oldest first.
abbrev pub over {ℓ κ} : {A : Type ℓ} {B : Type κ} → (B → List A) → List B → List A
over f [] = []
over f (o ∷ os) = over f os ++ f o

pub over_nothing {ℓ κ} : {A : Type ℓ} {B : Type κ} (os : List B) → over {A = A} (λ o. []) os ≡ []
over_nothing [] = refl
over_nothing (o ∷ os) = append_nil _ ∙ over_nothing os

module _ {ℓ} {A : Type ℓ} {F M : Type 0} (e : Lanes F M) (view : Agent F M → List A)
    (of_sent : Output F → List A) (of_reply : Reply F → List A)
    (Listens : AutowareController F M → Type 0)
    (sent_adds : (a : Agent F M) (o : Output F)
      → Listens a.controller
      → view (on_sent e a o) ≡ view a ++ of_sent o)
    (reply_adds : (a : Agent F M) (r : Reply F)
      → view (on_reply e a r) ≡ view a ++ of_reply r) where
  on_all_sent-adds :
      (a : Agent F M) (os : List (Output F))
      → Listens a.controller
      → view (on_all_sent e a os) ≡ view a ++ over of_sent os
  on_all_sent-adds a [] h = sym (append_nil (view a))
  on_all_sent-adds a (o ∷ os) h =
      sent_adds (on_all_sent e a os) o (subst Listens (sym (on_all_sent-controller e a os)) h)
      ∙ ap (λ l. l ++ of_sent o) (on_all_sent-adds a os h)
      ∙ append_assoc (view a) (over of_sent os) (of_sent o)

  on_all_replies-adds :
      (a : Agent F M) (rs : List (Reply F))
      → view (on_all_replies e a rs) ≡ view a ++ over of_reply rs
  on_all_replies-adds a [] = sym (append_nil (view a))
  on_all_replies-adds a (r ∷ rs) =
      reply_adds (on_all_replies e a rs) r
      ∙ ap (λ l. l ++ of_reply r) (on_all_replies-adds a rs)
      ∙ append_assoc (view a) (over of_reply rs) (of_reply r)

  pub settle-adds :
      (a : Agent F M) (c : AutowareController F M)
      → Listens c
      → view (settle e a c)
        ≡ view (record a { controller = c })
          ++ (over of_sent (sent_of c.trip_ctrl) ++ over of_reply c.replies)
  settle-adds a c h =
      on_all_replies-adds (on_all_sent e (record a { controller = c }) (sent_of c.trip_ctrl))
        c.replies
      ∙ ap (λ l. l ++ over of_reply c.replies)
          (on_all_sent-adds (record a { controller = c }) (sent_of c.trip_ctrl) h)
      ∙ append_assoc (view (record a { controller = c })) (over of_sent (sent_of c.trip_ctrl))
          (over of_reply c.replies)
