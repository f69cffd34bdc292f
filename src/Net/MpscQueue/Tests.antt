-- ===== src/Net/MpscQueue/Tests.antt =====
-- The theorem on the queue of many producers at a concrete input: the producer of 1 is overtaken.
use duo_duo.Base.{suc, ◌-◌, ◌≡◌, ◌⊎◌, List, [], ◌∷◌, ◌++◌, none, some}
use duo_duo.Net.MpscQueue.{Queue, new_queue, Step, exchanged, linked, dequeued, run}
use duo_duo.Net.MpscQueue.Linked.{values}
use duo_duo.Net.MpscQueue.Fifo.{came, run-fifo}

abbrev overtaken : List Step
overtaken = exchanged 1 ∷ exchanged 2 ∷ linked 2 ∷ dequeued ∷ linked 1 ∷ dequeued ∷ exchanged 3 ∷ []

run-fifo_example :
    (q : Queue) × (run overtaken new_queue ≡ some q)
    × (q.delivered ++ values q.data_ q.tail (q.head - q.tail) ≡ came overtaken)
    × (q.next q.tail ≡ none → (q.tail ≡ q.head) ⊎ (q.previous (suc q.tail) ≡ some q.tail))
run-fifo_example = run-fifo overtaken
