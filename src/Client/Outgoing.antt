-- ===== src/Client/Outgoing.antt =====
-- The queue of messages that wait for a route, `outgoing_msg` of smpp-smsc/smsc.c, and what becomes
-- of a message after an answer or a failure: `smscconn_sent` and `smscconn_send_failed` of
-- smpp-smsc/smscconn.c.
use smpp_server.Prelude.{ℕ, not, ◌&&◌, some, List, [], ◌∷◌, ◌++◌, ◌==◌, length, if◌then◌else◌}
use smpp_server.Prelude.Int.{ℤ, pos, minus_one, eqz, lez}
use smpp_server.Gwlib.{Gwlib, counter_increase}
use smpp_server.Client.Msg.{Msg}
use smpp_server.Client.Conn.{Conn}
use smpp_server.Client.Status.{Reason, failed_shutdown, failed_temporarily}

module _ ⦃gw : Gwlib⦄ where
  open gw use {Octstr}

  -- The queue with its limits, and the limits that were reported to smpp-esme: 1 for full, 2 for
  -- empty.
  pub record Outgoing : Type 0 where
    pub outgoing_msg : List Msg
    pub global_q_min : ℤ
    pub global_q_max : ℤ
    pub q_limits : List ℕ

  unfoldable pub produce_outgoing_msg : Msg → Outgoing → Outgoing
  produce_outgoing_msg m o =
      let queue = o.outgoing_msg ++ m ∷ [] in
      record o {
        outgoing_msg = queue;
        q_limits =
            (if not (eqz o.global_q_max minus_one) && lez o.global_q_max (pos (length queue))
              then o.q_limits ++ 1 ∷ []
              else o.q_limits);
      }

  -- The message goes back to the queue, with the time of its first failure.
  pub requeue : ℕ → Octstr → Msg → Outgoing → Outgoing
  unfolding produce_outgoing_msg
  requeue now id m o =
      produce_outgoing_msg
        (record m {
          msg_retry_time = (if m.msg_retry_time == 0 then now else m.msg_retry_time);
          failed_smsc_id = some id;
        })
        o

  -- Back to the queue, or counted as failed and destroyed.
  unfoldable pub smscconn_send_failed : ℕ → Conn → Msg → Reason → Outgoing → Conn × Outgoing
  unfolding requeue
  smscconn_send_failed now k m failed_temporarily o = (k, requeue now k.id m o)
  smscconn_send_failed now k m failed_shutdown o = (k, requeue now k.id m o)
  smscconn_send_failed now k m _ o = (record k { failed = counter_increase k.failed }, o)

  unfoldable pub smscconn_sent : Conn → Conn
  smscconn_sent k = record k { sent = counter_increase k.sent }
