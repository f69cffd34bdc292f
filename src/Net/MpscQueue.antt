-- ===== src/Net/MpscQueue.antt =====
-- MpscQueue.h: the queue of many producers and one consumer, by interleavings. A node is the number
-- of the exchange that made it the head, the first node 0, and is never given out again. What
-- `enqueue` does is two steps, the exchange and the store; making the node before is seen by no
-- other thread. `none` is an access to a node that was deleted.
pub mod Linked
pub mod Fifo
mod Tests
use duo_duo.Base.{
  ℕ, zero, suc, Bool, true, false, List, [], ◌∷◌, ◌++◌, Option, none, some, ◌==◌, if◌then◌else◌,
}

-- `next` and `data` are the fields of the nodes, `previous` the head that the producer of a node got
-- and has not yet written to. The last two are all values of exchanges and all that came out.
pub record Queue : Type 0 where
  pub next : ℕ → Option ℕ
  pub data_ : ℕ → ℕ
  pub head : ℕ
  pub tail : ℕ
  pub deleted : ℕ → Bool
  pub previous : ℕ → Option ℕ
  pub submitted : List ℕ
  pub delivered : List ℕ

abbrev pub new_queue : Queue
new_queue = record {
  next = λ k. none;
  data_ = λ k. 0;
  head = 0;
  tail = 0;
  deleted = λ k. false;
  previous = λ k. none;
  submitted = [];
  delivered = [];
}

abbrev pub assign {ℓ} : {A : Type ℓ} → (ℕ → A) → ℕ → A → ℕ → A
assign f k v j = if j == k then v else f j

-- `head_.exchange(node)`, for a new node with the value.
abbrev pub exchange : ℕ → Queue → Queue
exchange v q =
    let node = suc q.head in
    record q {
      data_ = assign q.data_ node v;
      head = node;
      previous = assign q.previous node (some q.head);
      submitted = q.submitted ++ v ∷ [];
    }

-- `prevhead->next_.store(node)`, of the producer of the node.
unfoldable pub link : ℕ → Queue → Option Queue
link node q = elim (q.previous node) [
  | none ↦ some q
  | some prev ↦ elim (q.deleted prev) [
    | true ↦ none
    | false ↦
        some (record q {
          next = assign q.next prev (some node);
          previous = assign q.previous node none;
        })
  ]
]

-- A `dequeue` that finds no next node leaves the queue as it is.
unfoldable pub dequeue : Queue → Option (Option ℕ × Queue)
dequeue q = elim (q.deleted q.tail) [
  | true ↦ none
  | false ↦ elim (q.next q.tail) [
    | none ↦ some (none, q)
    | some node ↦ elim (q.deleted node) [
      | true ↦ none
      | false ↦ some (
        some (q.data_ node),
        record q {
          tail = node;
          deleted = assign q.deleted q.tail true;
          delivered = q.delivered ++ q.data_ node ∷ [];
        },
      )
    ]
  ]
]

pub data Step : Type 0 where
  exchanged : ℕ → Step
  linked : ℕ → Step
  dequeued : Step

unfoldable pub step : Step → Queue → Option Queue
step (exchanged v) q = some (exchange v q)
step (linked node) q = link node q
step dequeued q = elim (dequeue q) [ none ↦ none | some (output, r) ↦ some r ]

unfoldable pub run : List Step → Queue → Option Queue
run [] q = some q
run (x ∷ xs) q = elim (step x q) [ none ↦ none | some r ↦ run xs r ]
