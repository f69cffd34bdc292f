-- ===== src/Net/Poller.antt =====
-- base/EpollPoller.h, base/EpollPoller.cpp and the calls of Channel.h that reach them. A channel
-- is named by its number, which stands for its address; every `epoll_ctl` call is kept, the last
-- one first. `none` is a failed assertion.
pub mod Valid
pub mod Remove
use duo_duo.Base.{
  ℕ, ◌-◌, Bool, true, false, ◌&&◌, ◌||◌, not, List, [], ◌∷◌, Option, none, some, bit_and, bit_or,
  ◌==◌, if◌then◌else◌,
}
use duo_duo.Net.Channel.{read_event, write_event}

pub data Index : Type 0 where
  new : Index
  added : Index
  deleted : Index

pub record Channel : Type 0 where
  pub fd : ℕ
  pub events : ℕ
  pub index : Index

pub data Call : Type 0 where
  add : ℕ → ℕ → Call
  modify : ℕ → ℕ → Call
  delete : ℕ → Call

pub record Poller : Type 0 where
  pub objects : ℕ → Channel
  pub channels : ℕ → Option ℕ
  pub calls : List Call

-- `f[k] = v`
abbrev pub assign {ℓ} : {A : Type ℓ} → (ℕ → A) → ℕ → A → ℕ → A
assign f k v = λ j. if j == k then v else f j

-- `channels_[fd] == channel`, and that there is one.
abbrev pub holds : Option ℕ → ℕ → Bool
holds none c = false
holds (some d) c = d == c

abbrev pub is_none : Option ℕ → Bool
is_none none = true
is_none (some d) = false

abbrev pub set_index : ℕ → Index → Poller → Poller
set_index c i p = record p { objects = assign p.objects c (record (p.objects c) { index = i }) }

abbrev pub set_events : ℕ → ℕ → Poller → Poller
set_events c e p = record p { objects = assign p.objects c (record (p.objects c) { events = e }) }

abbrev pub call : Call → Poller → Poller
call k p = record p { calls = k ∷ p.calls }

unfoldable pub update_channel : ℕ → Poller → Option Poller
update_channel c p =
    let fd = (p.objects c).fd in
    let events = (p.objects c).events in
    elim (p.objects c).index [
      | Index.new ↦
          if is_none (p.channels fd)
          then some (
              call (Call.add fd events)
                (set_index c Index.added (record p { channels = assign p.channels fd (some c) })))
          else none
      | Index.deleted ↦
          if holds (p.channels fd) c
          then some (call (Call.add fd events) (set_index c Index.added p))
          else none
      | Index.added ↦
          if holds (p.channels fd) c
          then (if events == 0
              then some (set_index c Index.deleted (call (Call.delete fd) p))
              else some (call (Call.modify fd events) p))
          else none
    ]

unfoldable pub remove_channel : ℕ → Poller → Option Poller
remove_channel c p =
    let fd = (p.objects c).fd in
    let q : Poller = record p { channels = assign p.channels fd none } in
    if holds (p.channels fd) c && ((p.objects c).events == 0)
    then (elim (p.objects c).index [
      | Index.new ↦ none
      | Index.added ↦ some (set_index c Index.new (call (Call.delete fd) q))
      | Index.deleted ↦ some (set_index c Index.new q)
    ])
    else none

-- `updateEvents`; the five that follow are the calls of it with their masks.
unfoldable pub update_events : ℕ → ℕ → Poller → Option Poller
update_events c events p = update_channel c (set_events c events p)

abbrev pub enable_reading : ℕ → Poller → Option Poller
enable_reading c p = update_events c (bit_or (p.objects c).events read_event) p

abbrev pub enable_writing : ℕ → Poller → Option Poller
enable_writing c p = update_events c (bit_or (p.objects c).events write_event) p

-- `events_ &= ~mask`, on the 32 bits of an `int`.
abbrev pub disable_reading : ℕ → Poller → Option Poller
disable_reading c p = update_events c (bit_and (p.objects c).events (4294967295 - read_event)) p

abbrev pub disable_writing : ℕ → Poller → Option Poller
disable_writing c p = update_events c (bit_and (p.objects c).events (4294967295 - write_event)) p

abbrev pub disable_all : ℕ → Poller → Option Poller
disable_all c p = update_events c 0 p

-- `Channel::remove`
unfoldable pub remove : ℕ → Poller → Option Poller
remove c p = if (p.objects c).events == 0 then remove_channel c p else none
