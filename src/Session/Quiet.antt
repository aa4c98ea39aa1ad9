-- ===== src/Session/Quiet.antt =====
-- What the calls of the dispatcher keep of a session: its state, its keys, and that a session that
-- is not running has no open requests.
use fountainer_client_framew.Common.{◌≡◌, refl, ◌∙◌, false, String, [], arith}
use fountainer_client_framew.Error.{Result, ok, err}
use fountainer_client_framew.Dispatcher.{
  refill, after_send, expire_queue, expire_pending, coalesce, enqueue, warn, answer, reject, accept,
  fail_all, send_next,
}
use fountainer_client_framew.Dispatcher.Store.{erase}
use fountainer_client_framew.Dispatcher.Types.{Waiting, Dispatcher}
use fountainer_client_framew.Dispatcher.Queue.{take_next, sweep_pending}
use fountainer_client_framew.Dispatcher.History.{Kept}
use fountainer_client_framew.Auth.{AuthContext}
use fountainer_client_framew.Session.Types.{SessionState, Platform, Link}
use fountainer_client_framew.Session.Sender.{is_running, encode_and_send}
use fountainer_client_framew.Session.Ids.{Sends, encode_and_send-Sends}

pub record Quiet {W : Type 0} (Idle : Type 0) (state : SessionState) (auth : AuthContext)
    (d : Dispatcher (Link W)) : Type 0 where
  pub same_state : d.sender.state ≡ state
  pub same_auth : d.sender.auth ≡ auth
  pub idle : Idle → d.pending ≡ []

module _ {W : Type 0} (p : Platform W) (Idle : Type 0) (state : SessionState) (auth : AuthContext)
    (off : Idle → is_running state ≡ false) where
  after_send-Quiet :
      (w : Waiting) (l : Link W) (r : Result String) (d : Dispatcher (Link W))
      → Sends l r d.sender
      → l.state ≡ state
      → l.auth ≡ auth
      → (Idle → d.pending ≡ [])
      → Quiet Idle state auth (after_send w r d)
  unfolding after_send
  after_send-Quiet w l (err e) d s st au idle = record {
    same_state = s.state_kept ∙ st;
    same_auth = s.auth_kept ∙ au;
    idle = idle;
  }
  after_send-Quiet w l (ok id) d s st au idle = record {
    same_state = s.state_kept ∙ st;
    same_auth = s.auth_kept ∙ au;
    idle = λ i. ground (arith, (s.takes id refl).2, st, off i);
  }

  pub Quiet-Kept :
      Kept
        (encode_and_send p)
        (λ _. Unit {0})
        (λ (d : Dispatcher (Link W)). Quiet Idle state auth d)
  unfolding refill expire_queue expire_pending coalesce enqueue warn answer reject accept fail_all
      send_next sweep_pending erase
  Quiet-Kept = record {
    on_refill = λ now d v. ground arith;
    on_expire_queue =
        λ now d v. record { same_state = v.same_state; same_auth = v.same_auth; idle = v.idle };
    on_expire_pending = λ now d v. record {
      same_state = v.same_state;
      same_auth = v.same_auth;
      idle = λ i. rw (v.idle i) refl;
    };
    on_round = λ d w ws _ _ room v.
        let sent = encode_and_send p d.sender (take_next w ws).0.spec in
        after_send-Quiet (take_next w ws).0 d.sender sent.0
          (record d { queue = (take_next w ws).1; sender = sent.1 })
          (encode_and_send-Sends p d.sender (take_next w ws).0.spec) v.same_state v.same_auth
          v.idle;
    on_defer = λ d v. record { same_state = v.same_state; same_auth = v.same_auth; idle = v.idle };
    on_flag = λ d b v. record { same_state = v.same_state; same_auth = v.same_auth; idle = v.idle };
    on_coalesce = λ spec g deadline d e v. record {
      same_state = v.same_state;
      same_auth = v.same_auth;
      idle = v.idle;
    };
    on_enqueue = λ spec g deadline d e v. record {
      same_state = v.same_state;
      same_auth = v.same_auth;
      idle = v.idle;
    };
    on_warn = λ reason type d v. ground arith;
    on_answer = λ id type m message d found v. ground (arith, v.idle);
    on_fail_all = λ error d v. record {
      same_state = v.same_state;
      same_auth = v.same_auth;
      idle = λ off. refl;
    };
    on_budget =
        λ b d a v. record { same_state = v.same_state; same_auth = v.same_auth; idle = v.idle };
    on_timeout =
        λ t d v. record { same_state = v.same_state; same_auth = v.same_auth; idle = v.idle };
    on_warning =
        λ b d v. record { same_state = v.same_state; same_auth = v.same_auth; idle = v.idle };
    on_enabled =
        λ b d v. record { same_state = v.same_state; same_auth = v.same_auth; idle = v.idle };
  }
