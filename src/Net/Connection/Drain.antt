-- ===== src/Net/Connection/Drain.antt =====
-- The end of a connection: its output drains, its side is closed, and it leaves the poller.
use duo_duo.Base.{
  ℕ, suc, ◌+◌, ◌≡◌, refl, Bool, true, false, ◌&&◌, ◌||◌, List, [], ◌∷◌, some, ltb, Bool-cases, inl,
  inr,
}
use duo_duo.Net.Connection.{
  State, Write, Note, Connection, is_connected, is_disconnecting, handle_close, connect_destroyed,
  handle_write,
}
use duo_duo.Net.Connection.Stream.{OnSome, OnSome-use}

-- The write events that a socket delivers, each of some bytes.
unfoldable pub drain : List ℕ → Connection → Connection
drain [] c = c
drain (n ∷ ns) c = drain ns (handle_write (Write.wrote n) c)

abbrev pub total : List ℕ → ℕ
total [] = 0
total (n ∷ ns) = n + total ns

abbrev pub all_positive : List ℕ → Bool
all_positive [] = true
all_positive (n ∷ ns) = ltb 0 n && all_positive ns

abbrev pub count_close_write : List Note → ℕ
count_close_write [] = 0
count_close_write (Note.close_write ∷ ns) = suc (count_close_write ns)
count_close_write (_ ∷ ns) = count_close_write ns

-- After the connection has closed, the destruction that the server then asks for succeeds: the
-- channel asks for nothing and leaves the poller.
pub handle_close-destroy :
    (c d : Connection)
    → handle_close c ≡ some d
    → (e : Connection) × (connect_destroyed d ≡ some e)
      × (e.in_poller ≡ false)
      × (e.state ≡ State.disconnected)
unfolding handle_close connect_destroyed
handle_close-destroy c d h = OnSome-use Destroyed destroyed h
  where
    Destroyed : Connection → Type 0
    Destroyed d =
        (e : Connection) × (connect_destroyed d ≡ some e)
        × (e.in_poller ≡ false)
        × (e.state ≡ State.disconnected)

    destroyed : OnSome Destroyed (handle_close c)
    destroyed = elim (Bool-cases (is_connected c.state || is_disconnecting c.state)) [
      | inl e ↦ rw e (_, refl, refl, refl)
      | inr e ↦ rw e tt
    ]
