-- ===== src/Network/Channel/Registration.antt =====
-- What the kernel knows of a channel, and what the channel says of itself.
use rpc_framework.Prelude.{
  ℕ, ◌≡◌, refl, Bool, true, false, List, [], ◌∷◌, Option, none, some, if◌then◌else◌, subst,
}
use rpc_framework.Network.Channel.{
  Interest, Epoll, or_same, none_event, Index, unregistered, registered, deleted, Channel,
  new_channel, is_none_event, update_from, update_channel, remove_from, remove_channel,
  enable_reading, disable_reading, enable_writing, disable_writing, disable_all,
}

-- What the owner does with a channel.
pub data Op : Type 0 where
  enables_reading disables_reading enables_writing disables_writing disables_all removes : Op

-- The interest that the kernel has, by the index.
abbrev pub known : Index → Interest → Option Interest
known unregistered i = none
known registered i = some i
known deleted i = none

module _ {S : Type 0} (epoll : Epoll S) where
  abbrev pub op : Channel × S → Op → Channel × S
  op (c, s) enables_reading = enable_reading epoll c s
  op (c, s) disables_reading = disable_reading epoll c s
  op (c, s) enables_writing = enable_writing epoll c s
  op (c, s) disables_writing = disable_writing epoll c s
  op (c, s) disables_all = disable_all epoll c s
  op (c, s) removes = remove_channel epoll c s

  unfoldable pub run : Channel × S → List Op → Channel × S
  run p [] = p
  run p (o ∷ ops) = run (op p o) ops

  abbrev pub succeeded : Option S → Bool
  succeeded none = false
  succeeded (some s) = true

  -- Whether the call of `epoll_ctl` in `updateChannel` succeeds.
  abbrev pub update_succeeds : Index → Channel → S → Bool
  update_succeeds unregistered c s = succeeded (epoll.add s c.fd c.events)
  update_succeeds deleted c s = succeeded (epoll.add s c.fd c.events)
  update_succeeds registered c s =
      if is_none_event c.events
      then succeeded (epoll.delete s c.fd)
      else succeeded (epoll.modify s c.fd c.events)

  -- And in `removeChannel`, which makes one only for the index 1.
  abbrev pub remove_succeeds : Index → Channel → S → Bool
  remove_succeeds unregistered c s = true
  remove_succeeds deleted c s = true
  remove_succeeds registered c s = succeeded (epoll.delete s c.fd)

  -- What the owner wants to hear of.
  abbrev pub wanted : Interest → Op → Interest
  wanted i enables_reading = record i { read = true }
  wanted i disables_reading = record i { read = false }
  wanted i enables_writing = record i { write = true }
  wanted i disables_writing = record i { write = false }
  wanted i disables_all = none_event
  wanted i removes = i

  abbrev pub op_succeeds : Channel × S → Op → Bool
  op_succeeds (c, s) removes = remove_succeeds c.index c s
  op_succeeds (c, s) enables_reading =
      update_succeeds c.index (record c { events = wanted c.events enables_reading }) s
  op_succeeds (c, s) disables_reading =
      update_succeeds c.index (record c { events = wanted c.events disables_reading }) s
  op_succeeds (c, s) enables_writing =
      update_succeeds c.index (record c { events = wanted c.events enables_writing }) s
  op_succeeds (c, s) disables_writing =
      update_succeeds c.index (record c { events = wanted c.events disables_writing }) s
  op_succeeds (c, s) disables_all =
      update_succeeds c.index (record c { events = wanted c.events disables_all }) s

  unfoldable pub AllSucceed : Channel × S → List Op → Type 0
  AllSucceed p [] = Unit {0}
  AllSucceed p (o ∷ ops) = (op_succeeds p o ≡ true) × AllSucceed (op p o) ops

  abbrev pub Agrees : ℕ → Channel × S → Type 0
  Agrees fd (c, s) = (c.fd ≡ fd) × (epoll.interest s c.fd ≡ known c.index c.events)

  sets :
      (s : S) (fd : ℕ) (r : Option S) (known_now : Option Interest)
      → ((s' : S) → r ≡ some s' → epoll.interest s' fd ≡ known_now)
      → succeeded r ≡ true
      → epoll.interest (or_same s r) fd ≡ known_now
  sets s fd none k law ok = cc
  sets s fd (some s') k law ok = law s' refl

  added :
      (fd : ℕ) (c : Channel) (s : S)
      → c.fd ≡ fd
      → succeeded (epoll.add s c.fd c.events) ≡ true
      → Agrees fd (record c { index = registered }, or_same s (epoll.add s c.fd c.events))
  added fd c s own ok = (
    own,
    sets s c.fd (epoll.add s c.fd c.events) (some c.events)
        (λ s' e. epoll.add_enters s s' c.fd c.events e) ok,
  )

  taken_out :
      (s : S) (fd : ℕ)
      → succeeded (epoll.delete s fd) ≡ true
      → epoll.interest (or_same s (epoll.delete s fd)) fd ≡ none
  taken_out s fd ok = sets s fd (epoll.delete s fd) none (λ s' e. epoll.delete_removes s s' fd e) ok

  update_from-Agrees :
      (fd : ℕ) (x : Index) (c : Channel) (s : S)
      → c.fd ≡ fd
      → update_succeeds x c s ≡ true
      → Agrees fd (update_from epoll x (record c { index = x }) s)
  update_from-Agrees fd unregistered c s own ok = added fd c s own ok
  update_from-Agrees fd deleted c s own ok = added fd c s own ok
  update_from-Agrees fd registered c s own ok = by_events (is_none_event c.events) ok
    where
      by_events :
          (b : Bool)
          → (if b
              then succeeded (epoll.delete s c.fd)
              else succeeded (epoll.modify s c.fd c.events))
            ≡ true
          → Agrees fd (
              if b
              then (record c { index = deleted }, or_same s (epoll.delete s c.fd))
              else (record c { index = registered }, or_same s (epoll.modify s c.fd c.events)))
      by_events true ok = (own, taken_out s c.fd ok)
      by_events false ok = (
        own,
        sets s c.fd (epoll.modify s c.fd c.events) (some c.events)
            (λ s' e. epoll.modify_sets s s' c.fd c.events e) ok,
      )

  update_channel-Agrees :
      (fd : ℕ) (c : Channel) (s : S)
      → c.fd ≡ fd
      → update_succeeds c.index c s ≡ true
      → Agrees fd (update_channel epoll c s)
  unfolding update_channel
  update_channel-Agrees fd c s own ok = update_from-Agrees fd c.index c s own ok

  remove_from-Agrees :
      (fd : ℕ) (x : Index) (c : Channel) (s : S)
      → c.fd ≡ fd
      → epoll.interest s c.fd ≡ known x c.events
      → remove_succeeds x c s ≡ true
      → Agrees fd (remove_from epoll x c s)
  remove_from-Agrees fd unregistered c s own e ok = (own, e)
  remove_from-Agrees fd deleted c s own e ok = (own, e)
  remove_from-Agrees fd registered c s own e ok = (own, taken_out s c.fd ok)

  op-Agrees :
      (fd : ℕ) (p : Channel × S) (o : Op)
      → op_succeeds p o ≡ true
      → Agrees fd p
      → Agrees fd (op p o)
  op-Agrees fd (c, s) enables_reading ok a = update_channel-Agrees fd _ s a.0 ok
  op-Agrees fd (c, s) disables_reading ok a = update_channel-Agrees fd _ s a.0 ok
  op-Agrees fd (c, s) enables_writing ok a = update_channel-Agrees fd _ s a.0 ok
  op-Agrees fd (c, s) disables_writing ok a = update_channel-Agrees fd _ s a.0 ok
  op-Agrees fd (c, s) disables_all ok a = update_channel-Agrees fd _ s a.0 ok
  op-Agrees fd (c, s) removes ok (own, e) =
      unfold remove_channel in remove_from-Agrees fd c.index c s own e ok

  run_from-Agrees :
      (fd : ℕ) (p : Channel × S) (ops : List Op)
      → AllSucceed p ops
      → Agrees fd p
      → Agrees fd (run p ops)
  unfolding run AllSucceed
  run_from-Agrees fd p [] ok a = a
  run_from-Agrees fd p (o ∷ ops) ok a =
      run_from-Agrees fd (op p o) ops ok.1 (op-Agrees fd p o ok.0 a)

  -- Whatever the owner does with a new channel whose descriptor the kernel does not watch, as long as
  -- each call of `epoll_ctl` that this makes succeeds: the kernel watches the descriptor exactly when
  -- the index is 1, and then for the channel's own events.
  pub run-Agrees :
      (fd : ℕ) (s : S) (ops : List Op)
      → epoll.interest s fd ≡ none
      → AllSucceed (new_channel fd, s) ops
      → let (c, s') = run (new_channel fd, s) ops in
        (c.fd ≡ fd) × (epoll.interest s' fd ≡ known c.index c.events)
  unfolding new_channel
  run-Agrees fd s ops absent ok =
      let a = run_from-Agrees fd (new_channel fd, s) ops ok (refl, absent) in
      (
        a.0,
        subst
            (λ n.
              epoll.interest (run (new_channel fd, s) ops).1 n
              ≡ known (run (new_channel fd, s) ops).0.index (run (new_channel fd, s) ops).0.events)
            a.0 a.1,
      )

  -- An addition that fails is not noticed: the index is 1, and the kernel does not watch the descriptor.
  failed_add :
      (fd : ℕ) (s : S)
      → epoll.interest s fd ≡ none
      → epoll.add s fd (record { read = true; write = false }) ≡ none
      → let (c, s') = enable_reading epoll (new_channel fd) s in
        (c.index ≡ registered) × (epoll.interest s' fd ≡ none)
  unfolding update_channel new_channel
  failed_add fd s absent fails = (refl, rw fails absent)
