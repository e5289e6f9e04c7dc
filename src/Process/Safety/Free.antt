-- ===== src/Process/Safety/Free.antt =====
-- Which changes of the pollfds keep free slots calm.
use scalable_server.Prelude.{
  ◌∙◌, is_zero-negate, if◌then◌else◌, true, sym, false, refl, set, List, get_or, get_or-set_cases,
  ℕ, Bool,
}
use scalable_server.Os.{no_pollfd, Pollfd, Calm, only_pollin, Events, is_hung_up}
use scalable_server.Process.State.{
  set_listen, disable, forget_connection, reset_revents, ParentStruct,
}

-- No free slot is hung up or in error.
abbrev pub AllCalm : ParentStruct → Type 0
AllCalm s = (j : ℕ) → Calm (get_or s.pollfds j no_pollfd)

pub set_listen-Calm :
    (b : Bool) (e : Events) (ps : List Pollfd) (j : ℕ)
    → ((k : ℕ) → Calm (get_or ps k no_pollfd))
    → Calm (get_or (if b then set_listen e ps else ps) j no_pollfd)
set_listen-Calm false e ps j h = h j
set_listen-Calm true e ps j h = get_or-set_cases Calm ps 0 j _ no_pollfd (h 0) (h j)

pub forget_connection-Calm :
    (s : ParentStruct) (p : ℕ) → AllCalm s → AllCalm (forget_connection p s)
unfolding forget_connection is_hung_up
forget_connection-Calm s p h j =
    set_listen-Calm _ only_pollin (set s.pollfds p no_pollfd) j
      λ k. get_or-set_cases Calm s.pollfds p k no_pollfd no_pollfd (λ _. refl) (h k)

pub reset_revents-Calm :
    (s : ParentStruct) (p : ℕ)
    → AllCalm s
    → AllCalm (record s { pollfds = reset_revents p s.pollfds })
unfolding reset_revents is_hung_up
reset_revents-Calm s p h j = get_or-set_cases Calm s.pollfds p j _ no_pollfd (λ _. refl) (h j)

pub disable-Calm :
    (s : ParentStruct) (p : ℕ) → AllCalm s → AllCalm (record s { pollfds = disable p s.pollfds })
unfolding disable
disable-Calm s p h j =
    get_or-set_cases Calm s.pollfds p j _ no_pollfd
      (λ e. h p (sym (is_zero-negate (get_or s.pollfds p no_pollfd).fd) ∙ e)) (h j)
