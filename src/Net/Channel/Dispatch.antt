-- ===== src/Net/Channel/Dispatch.antt =====
-- Channel::handleEvent: which callbacks an event calls.
use iot_distributed_gateway.Common.{Bool, true, false, ◌&&◌, ◌||◌, not, List, [], ◌∷◌, ◌≡◌, arith}
use iot_distributed_gateway.Net.Channel.{
  Channel, Ready, Call, close_call, error_call, read_call, write_call, handle_event,
}

abbrev pub called : Call → List Call → Bool
called c [] = false
called close_call (close_call ∷ cs) = true
called error_call (error_call ∷ cs) = true
called read_call (read_call ∷ cs) = true
called write_call (write_call ∷ cs) = true
called c (d ∷ cs) = called c cs

-- Nothing is called on a tied channel whose owner is gone. Otherwise a hang-up with nothing to read
-- calls the close callback and no other, and any other event calls the error, read and write callbacks,
-- each exactly where its bits are set.
handle_event_lem :
    (alive : Bool) (r : Ready) (ch : Channel)
    → let cs = handle_event alive r ch in
      let lives = not ch.tied || alive in
      let closes = r.hup && not r.in_ in
      (called close_call cs ≡ (lives && closes))
      × (called error_call cs ≡ (lives && (not closes && r.err)))
      × (called read_call cs ≡ (lives && (not closes && (r.in_ || (r.pri || r.rdhup)))))
      × (called write_call cs ≡ (lives && (not closes && r.out)))
unfolding handle_event
handle_event_lem alive r ch = ground arith
