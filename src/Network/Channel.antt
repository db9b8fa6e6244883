-- ===== src/Network/Channel.antt =====
-- src/network/channel.cc, with `updateChannel` and `removeChannel` of src/network/event_loop.cc: the channel of
-- a file descriptor, its registration and the dispatch of what happened to it. The
-- kernel's epoll is a parameter, with what its manual page says of one descriptor. The callbacks of the owner
-- are set, and are steps on a state of the owner's.
pub mod Registration
pub mod Dispatch
use rpc_framework.Prelude.{
  ℕ, ◌≡◌, Bool, true, false, not, ◌&&◌, ◌||◌, List, [], ◌∷◌, Option, none, some, if◌then◌else◌,
}

-- The bits of `kReadEvent` and of `kWriteEvent`.
pub record Interest : Type 0 where
  pub read : Bool
  pub write : Bool

abbrev pub none_event : Interest
none_event = record { read = false; write = false }

-- What `epoll_ctl` does with a descriptor: it fails, or the kernel has the new interest. `none` is a
-- failure, which leaves the kernel's list as it was.
pub record Epoll (S : Type 0) : Type 0 where
  pub interest : S → ℕ → Option Interest
  pub add : S → ℕ → Interest → Option S
  pub modify : S → ℕ → Interest → Option S
  pub delete : S → ℕ → Option S
  pub add_enters :
      (s s' : S) (fd : ℕ) (i : Interest) → add s fd i ≡ some s' → interest s' fd ≡ some i
  pub modify_sets :
      (s s' : S) (fd : ℕ) (i : Interest) → modify s fd i ≡ some s' → interest s' fd ≡ some i
  pub delete_removes : (s s' : S) (fd : ℕ) → delete s fd ≡ some s' → interest s' fd ≡ none

-- The code goes on after a call that failed.
abbrev pub or_same : {S : Type 0} → S → Option S → S
or_same s none = s
or_same s (some s') = s'

-- The values -1, 1 and 2.
pub data Index : Type 0 where
  unregistered registered deleted : Index

pub record Channel : Type 0 where
  pub fd : ℕ
  pub events : Interest
  pub index : Index

unfoldable pub new_channel : ℕ → Channel
new_channel fd = record { fd = fd; events = none_event; index = unregistered }

abbrev pub is_none_event : Interest → Bool
is_none_event i = not i.read && not i.write

module _ {S : Type 0} (epoll : Epoll S) where
  abbrev pub update_from : Index → Channel → S → Channel × S
  update_from unregistered c s =
      (record c { index = registered }, or_same s (epoll.add s c.fd c.events))
  update_from deleted c s = (record c { index = registered }, or_same s (epoll.add s c.fd c.events))
  update_from registered c s =
      if is_none_event c.events
      then (record c { index = deleted }, or_same s (epoll.delete s c.fd))
      else (c, or_same s (epoll.modify s c.fd c.events))

  unfoldable pub update_channel : Channel → S → Channel × S
  update_channel c s = update_from c.index c s

  abbrev pub remove_from : Index → Channel → S → Channel × S
  remove_from unregistered c s = (record c { index = unregistered }, s)
  remove_from deleted c s = (record c { index = unregistered }, s)
  remove_from registered c s = (record c { index = unregistered }, or_same s (epoll.delete s c.fd))

  unfoldable pub remove_channel : Channel → S → Channel × S
  remove_channel c s = remove_from c.index c s

  abbrev pub enable_reading : Channel → S → Channel × S
  enable_reading c s = update_channel (record c { events = record c.events { read = true } }) s

  abbrev pub disable_reading : Channel → S → Channel × S
  disable_reading c s = update_channel (record c { events = record c.events { read = false } }) s

  abbrev pub enable_writing : Channel → S → Channel × S
  enable_writing c s = update_channel (record c { events = record c.events { write = true } }) s

  abbrev pub disable_writing : Channel → S → Channel × S
  disable_writing c s = update_channel (record c { events = record c.events { write = false } }) s

  abbrev pub disable_all : Channel → S → Channel × S
  disable_all c s = update_channel (record c { events = none_event }) s

  -- The destructor.
  abbrev pub destroy_from : Index → Channel → S → S
  destroy_from unregistered c s = s
  destroy_from registered c s = (remove_channel c s).1
  destroy_from deleted c s = (remove_channel c s).1

  unfoldable pub destroy : Channel → S → S
  destroy c s = destroy_from c.index c s

-- The bits that `epoll_wait` reports.
pub record Revents : Type 0 where
  pub err : Bool
  pub hup : Bool
  pub rdhup : Bool
  pub in_ : Bool
  pub pri : Bool
  pub out : Bool

pub record Handlers (W : Type 0) : Type 0 where
  pub on_read : W → W
  pub on_write : W → W
  pub on_close : W → W
  pub on_error : W → W

module _ {W : Type 0} (handlers : Handlers W) where
  abbrev pub hung_up : Revents → W → W
  hung_up r w = if r.hup && not r.in_ then handlers.on_close w else w

  abbrev pub to_read : Revents → W → W
  to_read r w = if r.in_ || r.pri then handlers.on_read w else w

  abbrev pub half_closed : Revents → W → W
  half_closed r w = if r.rdhup then handlers.on_close (handlers.on_read w) else w

  abbrev pub to_write : Revents → W → W
  to_write r w = if r.out then handlers.on_write w else w

  -- `tie`: none where no owner is tied, and else whether it still lives.
  abbrev pub dispatch : Revents → W → W
  dispatch r w =
      if r.err
      then handlers.on_close (handlers.on_error w)
      else to_write r (half_closed r (to_read r (hung_up r w)))

  unfoldable pub handle_event : Option Bool → Revents → W → W
  handle_event none r w = dispatch r w
  handle_event (some true) r w = dispatch r w
  handle_event (some false) r w = w
