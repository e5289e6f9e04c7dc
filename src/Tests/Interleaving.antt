-- ===== src/Tests/Interleaving.antt =====
-- The theorems on the interleaved processes of process-server/ at concrete runs.
use scalable_server.Tests.World.{world}
use scalable_server.Process.Child.{zero_child, c_handle_message}
use scalable_server.Process.Interleaving.Calls.{actions, Walks}
use scalable_server.Process.Interleaving.ChildCalls.{c_handle_message-Walks, Uninterrupted}
use scalable_server.Os.{no_error, Machine, no_address}
use scalable_server.Process.Setup.{zero_parent, watch}
use scalable_server.Process.Invariant.{Inv}
use scalable_server.Process.Interleaving.Progress.{own_by_child, no_deadlock, Quiet, OwnStep}
use scalable_server.Process.Interleaving.Safety.{
  received_client_is_off, received_message, one_receiver_per_client,
}
use scalable_server.Process.Interleaving.Work.{here, then_step, OwnRun-settles, OwnRun, work}
use scalable_server.Process.Interleaving.Pollfds.{save_connection-accept, slots_of}
use scalable_server.Process.Interleaving.FirstFree.{slot_of}
use scalable_server.Process.State.{Child, p_get_pollfd_index, save_connection, ParentStruct}
use scalable_server.Process.Interleaving.System.{
  at_log, received, idle, read_message, polling, init, ParentMove, is_client, reporting, System,
  waits, posts, got, disables, reading,
}
use scalable_server.Prelude.{
  true, pos, arith, sum, ◌⊎◌, set_at, occupied, ℕ, ◌≤◌, refl, [], ◌∷◌, ◌++◌, ◌≡◌, List,
}
use scalable_server.Process.Interleaving.Schedule.{
  parent_goes, polled, client_does, child_goes, has_sent, connects, Choice, run,
}

-- With eight children and five slots: two clients connect, and the first one sends. The parent passes it
-- on, and the child 2 takes it.
abbrev first_is_sent : List Choice
first_is_sent =
    client_does (connects 0 7)
    ∷ client_does (connects 1 8)
    ∷ client_does polled
    ∷ client_does has_sent
    ∷ parent_goes
    ∷ parent_goes
    ∷ parent_goes
    ∷ child_goes 2
    ∷ []

-- The parent is about to disable the first slot, the child 2 is at `recvmsg`.
first_is_sent_state :
    ((run 8 5 first_is_sent).last.parent ≡ disables 0 7)
    × ((run 8 5 first_is_sent).last.children 2 ≡ got)
unfolding run
first_is_sent_state = (refl, refl)

-- The second one is sent too, and the child 5 takes it.
abbrev both_are_sent : List Choice
both_are_sent =
    first_is_sent
    ++ child_goes 2
      ∷ child_goes 2
      ∷ parent_goes
      ∷ client_does has_sent
      ∷ parent_goes
      ∷ parent_goes
      ∷ parent_goes
      ∷ child_goes 5
      ∷ child_goes 5
      ∷ child_goes 5
      ∷ []

both_are_sent_state :
    ((run 8 5 both_are_sent).last.children 2 ≡ reading 7)
    × ((run 8 5 both_are_sent).last.children 5 ≡ reading 8)
unfolding run
both_are_sent_state = (refl, refl)

-- The child 2 reports the first client and waits for the log; the parent enables the client, which sends
-- again, and the child 3 takes it: the child 2 has still to reply on it.
abbrev sent_again : List Choice
sent_again =
    both_are_sent
    ++ child_goes 2
      ∷ child_goes 2
      ∷ child_goes 2
      ∷ parent_goes
      ∷ parent_goes
      ∷ parent_goes
      ∷ parent_goes
      ∷ parent_goes
      ∷ parent_goes
      ∷ parent_goes
      ∷ parent_goes
      ∷ client_does polled
      ∷ client_does has_sent
      ∷ parent_goes
      ∷ parent_goes
      ∷ parent_goes
      ∷ child_goes 3
      ∷ child_goes 3
      ∷ []

sent_again_state :
    ((run 8 5 sent_again).last.children 2 ≡ at_log 7)
    × ((run 8 5 sent_again).last.children 3 ≡ received 7)
unfolding run
sent_again_state = (refl, refl)

-- Two children that receive from the first client are the same child.
one_receiver_per_client_example : ◌≡◌ {A = ℕ} 2 2
unfolding run
one_receiver_per_client_example =
    one_receiver_per_client (run 8 5 both_are_sent).reach 2 2 (omega arith) (omega arith) 7 refl
      refl

-- A child has received the first client, whose slot the parent has still to disable.
received_client_is_off_example :
    ((run 8 5 (first_is_sent ++ child_goes 2 ∷ [])).last.parent ≡ posts 0 7)
    ⊎ ((run 8 5 (first_is_sent ++ child_goes 2 ∷ [])).last.parent ≡ disables 0 7)
unfolding run
received_client_is_off_example =
    received_client_is_off (run 8 5 (first_is_sent ++ child_goes 2 ∷ [])).reach 2 0 7 (omega arith)
      (omega arith) refl refl

received_message_example : (n : ℕ) × ((run 8 5 first_is_sent).last.domain ≡ n ∷ [])
unfolding run
received_message_example = received_message (run 8 5 first_is_sent).reach 2 (omega arith) refl

no_deadlock_example :
    ((t : System) × OwnStep 8 5 (run 8 5 both_are_sent).last t)
    ⊎ Quiet 8 5 (run 8 5 both_are_sent).last
no_deadlock_example = no_deadlock (run 8 5 both_are_sent).reach (omega arith) (omega arith)

-- The run in which the child 5 gets to the end of its message.
abbrev read_by_fifth : System
read_by_fifth = record (run 8 5 both_are_sent).last {
  children = set_at 5 (reporting 8) (run 8 5 both_are_sent).last.children;
}

OwnRun-settles_example :
    (1 ≤ work 8 5 (run 8 5 both_are_sent).last)
    × ((u : System) × ((l : ℕ) × OwnRun 8 5 read_by_fifth l u) × Quiet 8 5 u)
unfolding run
OwnRun-settles_example =
    OwnRun-settles (run 8 5 both_are_sent).reach (omega arith) (omega arith)
      (then_step here (own_by_child 5 (omega arith) read_message))

-- With one child, four slots are too many: it waits for the pipe with the second client, the third is on
-- the socket, and the parent waits to send the fourth while the report of the first is in the pipe.
abbrev four_clients : List Choice
four_clients =
    client_does (connects 0 5)
    ∷ client_does (connects 1 6)
    ∷ client_does (connects 2 7)
    ∷ client_does (connects 3 8)
    ∷ client_does polled
    ∷ []

abbrev parent_sends : List Choice
parent_sends = client_does has_sent ∷ parent_goes ∷ parent_goes ∷ parent_goes ∷ parent_goes ∷ []

abbrev child_takes_four : List Choice
child_takes_four = child_goes 0 ∷ child_goes 0 ∷ child_goes 0 ∷ child_goes 0 ∷ []

abbrev child_finishes : List Choice
child_finishes = child_goes 0 ∷ child_goes 0 ∷ child_goes 0 ∷ child_goes 0 ∷ child_goes 0 ∷ []

abbrev too_many : List Choice
too_many =
    four_clients
    ++ parent_sends
    ++ child_takes_four
    ++ child_finishes
    ++ parent_sends
    ++ child_takes_four
    ++ parent_sends
    ++ client_does has_sent ∷ []

too_many_state :
    ((run 1 4 too_many).last.parent ≡ waits 3 8)
    × ((run 1 4 too_many).last.domain_write ≡ 0)
    × ((run 1 4 too_many).last.children 0 ≡ reporting 6)
    × ((run 1 4 too_many).last.pipe_write ≡ 0)
unfolding run
too_many_state = (refl, refl, refl, refl)

-- The parent as it starts to listen.
abbrev no_client : ParentStruct
no_client = watch 1 (pos 4) (watch 0 (pos 3) zero_parent)

no_client-Inv : Inv no_client
unfolding occupied
no_client-Inv = record { pollfds_len = refl; counted = refl; listens = refl }

save_connection-accept_example :
    ParentMove 5 init.shared
      (slots_of no_client)
      polling
      init.shared
      (slots_of (save_connection (p_get_pollfd_index no_client.pollfds) 7 no_address no_client))
      polling
unfolding slots_of slot_of occupied sum is_client
save_connection-accept_example =
    save_connection-accept no_client no_client-Inv init.shared 7 no_address (omega arith)
      (omega arith) refl

abbrev child_start : Machine Child
child_start = record {
  trace = [];
  errno = no_error;
  st = record {
    domain_fds = (pos 6, pos 0);
    c_to_p_pipe_fds = (pos 0, pos 5);
    child = zero_child;
    gogo_process = true;
  };
}

world-Uninterrupted : Uninterrupted (world 3)
world-Uninterrupted = record { wait_ok = λ h s. refl; post_ok = λ h s. refl }

c_handle_message-Walks_example :
    Walks idle idle (actions child_start.trace) (c_handle_message (world 3) child_start)
c_handle_message-Walks_example =
    c_handle_message-Walks (world 3) world-Uninterrupted child_start refl
