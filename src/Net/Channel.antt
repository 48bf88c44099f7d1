-- ===== src/Net/Channel.antt =====
-- src/net/Channel.h and src/net/Channel.cpp: which events a descriptor waits for, and which callbacks its
-- ready events make.
pub mod Dispatch
mod Tests
use iot_distributed_gateway.Common.{
  Bool, true, false, ◌&&◌, ◌||◌, not, List, [], ◌∷◌, ◌++◌, if◌then◌else◌,
}

-- `events_` holds kReadEvent and kWriteEvent whole or not at all; `added` is index 1, its absence -1.
pub record Channel : Type 0 where
  pub reading : Bool
  pub writing : Bool
  pub tied : Bool
  pub added : Bool

abbrev pub new : Channel
new = record { reading = false; writing = false; tied = false; added = false }

-- EventLoop::updateChannel: what epoll_ctl answers when it succeeds.
abbrev pub update : Channel → Channel
update ch = record ch { added = true }

-- EventLoop::removeChannel.
abbrev pub forget : Channel → Channel
forget ch = record ch { added = false }

abbrev pub enable_reading : Channel → Channel
enable_reading ch = update (record ch { reading = true })

abbrev pub enable_writing : Channel → Channel
enable_writing ch = update (record ch { writing = true })

abbrev pub disable_writing : Channel → Channel
disable_writing ch = update (record ch { writing = false })

abbrev pub disable_reading : Channel → Channel
disable_reading ch = update (record ch { reading = false })

abbrev pub disable_all : Channel → Channel
disable_all ch = update (record ch { reading = false; writing = false })

abbrev pub is_none_event : Channel → Bool
is_none_event ch = not ch.reading && not ch.writing

abbrev pub set_tie : Channel → Channel
set_tie ch = record ch { tied = true }

-- The bits of `revents_`.
pub record Ready : Type 0 where
  pub in_ : Bool
  pub pri : Bool
  pub rdhup : Bool
  pub out : Bool
  pub err : Bool
  pub hup : Bool

pub data Call : Type 0 where
  close_call error_call read_call write_call : Call

-- Each callback is called if it is set; a connection sets all four.
unfoldable pub handle_event_with_guard : Ready → List Call
handle_event_with_guard r =
    if r.hup && not r.in_
    then close_call ∷ []
    else (if r.err then error_call ∷ [] else [])
      ++ ((if r.in_ || (r.pri || r.rdhup) then read_call ∷ [] else [])
          ++ (if r.out then write_call ∷ [] else []))

-- `alive` is what tie_.lock() finds.
unfoldable pub handle_event : Bool → Ready → Channel → List Call
unfolding handle_event_with_guard
handle_event alive r ch =
    if ch.tied then (if alive then handle_event_with_guard r else []) else handle_event_with_guard r
