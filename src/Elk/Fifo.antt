-- ===== src/Elk/Fifo.antt =====
-- The queue of src/elk/async_upload.h under pushes and rounds of the thread.
use grpc_push_sdk.Common.{
  ◌≤◌, ◌≡◌, refl, sym, Bool, true, List, [], ◌∷◌, ◌++◌, Option, none, some, arith, length, ltb,
  length-append, Bool-cases, Option-cases, append-nil, append_assoc, ◌∙◌, ap, inl, inr, suc,
}
use grpc_push_sdk.Config.{elk_upload_max_size}
use grpc_push_sdk.Http.{Exchange}
use grpc_push_sdk.Elk.{Item, Uploader, trim, push, upload_round, round_with}

abbrev pub items_of : Option Item → List Item
items_of none = []
items_of (some i) = i ∷ []

trim-append : (l : List Item) → items_of (trim l).1 ++ (trim l).0 ≡ l
unfolding trim
trim-append [] = refl
trim-append (i ∷ is) = elim (Bool-cases (ltb elk_upload_max_size (length (i ∷ is)))) [
  | inl above ↦ rw above refl
  | inr below ↦ rw below refl
]

trim-length :
    (l : List Item) → length l ≤ suc elk_upload_max_size → length (trim l).0 ≤ elk_upload_max_size
unfolding trim
trim-length [] h = ground arith
trim-length (i ∷ is) h = ground arith

-- Push keeps the queue within its maximal size, running or not.
pub push-length :
    (u : Uploader) (i : Item)
    → length u.queue ≤ elk_upload_max_size
    → length (push u i).uploader.queue ≤ elk_upload_max_size
unfolding push
push-length u i h = elim (Bool-cases u.run) [
  | inl yes' ↦
      rw yes' (trim-length (u.queue ++ i ∷ []) (ground (arith, length-append u.queue (i ∷ []))))
  | inr no' ↦ rw no' h
]

-- What happens to the uploader: a call of Push, or a round of its thread.
pub data Event : Type 0 where
  pushes : Item → Event
  uploads : List (Exchange × Bool) → Event

-- The state after an event, and the items that left the queue in it, dropped or posted.
unfoldable pub after_event : Uploader → Event → Option (Uploader × List Item)
after_event u (pushes i) = some ((push u i).uploader, items_of (push u i).dropped)
after_event u (uploads attempts) = elim (upload_round u attempts) [
  | none ↦ none
  | some (u', items, ok) ↦ some (u', items)
]

unfoldable pub after_events : Uploader → List Event → Option (Uploader × List Item)
after_events u [] = some (u, [])
after_events u (e ∷ es) = elim (after_event u e) [
  | none ↦ none
  | some (u', left) ↦ elim (after_events u' es) [
    | none ↦ none
    | some (u'', left') ↦ some (u'', left ++ left')
  ]
]

abbrev pub pushed_by : List Event → List Item
pushed_by [] = []
pushed_by (pushes i ∷ es) = i ∷ pushed_by es
pushed_by (uploads attempts ∷ es) = pushed_by es

abbrev item_of : Event → List Item
item_of (pushes i) = i ∷ []
item_of (uploads attempts) = []

push-Fifo :
    (u : Uploader) (i : Item)
    → u.run ≡ true
    → ((push u i).uploader.run ≡ true)
      × (items_of (push u i).dropped ++ (push u i).uploader.queue ≡ u.queue ++ i ∷ [])
unfolding push
push-Fifo u i r = rw r (refl, trim-append (u.queue ++ i ∷ []))

upload_round-Fifo :
    (u u' : Uploader) (attempts : List (Exchange × Bool)) (items : List Item) (ok : Bool)
    → u.run ≡ true
    → upload_round u attempts ≡ some (u', items, ok)
    → (u'.run ≡ true) × (items ++ u'.queue ≡ u.queue)
unfolding upload_round round_with
upload_round-Fifo u u' attempts items ok r h = ground (arith, h, append-nil u.queue)

after_event-Fifo :
    (u u' : Uploader) (e : Event) (left : List Item)
    → u.run ≡ true
    → after_event u e ≡ some (u', left)
    → (u'.run ≡ true) × (left ++ u'.queue ≡ u.queue ++ item_of e)
unfolding after_event
after_event-Fifo u u' (pushes i) left r h = ground (arith, h, push-Fifo u i r)
after_event-Fifo u u' (uploads attempts) left r h = elim (Option-cases (upload_round u attempts)) [
  | inl e ↦ ground (arith, e, h)
  | inr ((v, items, ok), e) ↦
      ground (arith, e, h, upload_round-Fifo u v attempts items ok r e, append-nil u.queue)
]

same_run :
    (v u : Uploader) (l m : List Item)
    → ◌≡◌ {A = Option (Uploader × List Item)} (some (v, l)) (some (u, m))
    → v.run ≡ true
    → u.run ≡ true
same_run v u l m e r = ground arith

same_items :
    (v u : Uploader) (l m all : List Item)
    → ◌≡◌ {A = Option (Uploader × List Item)} (some (v, l)) (some (u, m))
    → l ++ v.queue ≡ all
    → m ++ u.queue ≡ all
same_items v u l m all e r = ground arith

item_of-pushed_by : (e : Event) (es : List Event) → item_of e ++ pushed_by es ≡ pushed_by (e ∷ es)
item_of-pushed_by (pushes i) es = refl
item_of-pushed_by (uploads attempts) es = refl

two_parts :
    (q v v' gone gone' : List Item) (e : Event) (es : List Event)
    → gone ++ v ≡ q ++ item_of e
    → gone' ++ v' ≡ v ++ pushed_by es
    → (gone ++ gone') ++ v' ≡ q ++ pushed_by (e ∷ es)
two_parts q v v' gone gone' e es h k =
    append_assoc gone gone' v'
    ∙ ap (λ l. gone ++ l) k
    ∙ sym (append_assoc gone v (pushed_by es))
    ∙ ap (λ l. l ++ pushed_by es) h
    ∙ append_assoc q (item_of e) (pushed_by es)
    ∙ ap (λ l. q ++ l) (item_of-pushed_by e es)

-- While the uploader runs, items leave its queue, dropped or posted, in the order in which they were
-- pushed, each once: those that left, then those still queued, are those queued at first, then those
-- pushed.
pub after_events-Fifo :
    (u u' : Uploader) (es : List Event) (left : List Item)
    → u.run ≡ true
    → after_events u es ≡ some (u', left)
    → (u'.run ≡ true) × (left ++ u'.queue ≡ u.queue ++ pushed_by es)
unfolding after_events
after_events-Fifo u u' [] left r h = ground (arith, h, append-nil u.queue)
after_events-Fifo u u' (e ∷ es) left r h = elim (Option-cases (after_event u e)) [
  | inl fault ↦ ground (arith, fault, h)
  | inr ((v, gone), first) ↦ elim (Option-cases (after_events v es)) [
    | inl fault ↦ ground (arith, first, fault, h)
    | inr ((v', gone'), rest) ↦
        let (run1, order1) = after_event-Fifo u v e gone r first in
        let (run2, order2) = after_events-Fifo v v' es gone' run1 rest in
        (
          same_run v' u' (gone ++ gone') left (ground (arith, first, rest, h)) run2,
          same_items v' u' (gone ++ gone') left (u.queue ++ pushed_by (e ∷ es))
              (ground (arith, first, rest, h))
              (two_parts u.queue v.queue v'.queue gone gone' e es order1 order2),
        )
  ]
]
