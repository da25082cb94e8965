-- ===== src/Client.antt =====
-- class MsgClient of src/task_msg.cpp: the requesting end of a connection, with the requests that
-- wait for a response. `C` is the type of the callbacks of requests; each call of one is recorded.
pub mod Requests
pub mod Responses
pub mod Receive
pub mod Pending
pub mod Once
pub mod Lifecycle
pub mod Sending
pub mod Delivery
pub mod Unbuffered
pub mod Pipeline
pub mod Accounting
pub mod Promises
pub mod Typing
pub mod Typed
pub mod Ending
use task_monitor.Base.{
  ℕ, ◌+◌, ◌%◌, List, [], ◌∷◌, ◌++◌, Option, none, some, if◌then◌else◌, ℤ, pos, ok_code, fail_code,
  is_zero, u32_mod,
}
use task_monitor.Socket.{Socket}
use task_monitor.Ring.{RingBuf}
use task_monitor.Package.{socket_buf_size}
use task_monitor.ListApi.{ListApi}
use task_monitor.Json.{Json}
use task_monitor.Msg.{EventType, EventErr, err_code, HeartbeatRsp, TaskAllRsp, TaskDetailInfo}
use task_monitor.Send.{send_frame, ◌>>=◌}

-- The calls of libev_api that concern a request's timer, by the timer's handle.
pub data TimerCall : Type 0 where
  create_timer start_timer destroy_timer : ℕ → TimerCall

module _ (js : Json) (C : Type 0) where
  open js use {Double, double_eq, of_int}

  -- msgRequest_t: `node` is its address.
  pub record MsgRequest : Type 0 where
    pub node : ℕ
    pub req_id : ℕ
    pub type : EventType
    pub cb : Option C
    pub time_start : Double
    pub timeout : Double
    pub timer : ℕ

  abbrev pub node_of : MsgRequest → ℕ
  node_of r = r.node

  -- The `void *data` of a request's callback.
  pub data RspData : Type 0 where
    null : RspData
    heartbeat_rsp : HeartbeatRsp js → RspData
    all_rsp : TaskAllRsp → RspData
    detail_rsp : TaskDetailInfo js → RspData

  -- One call of a request's callback.
  pub record Call : Type 0 where
    pub cb : C
    pub ret : ℤ
    pub rsp : RspData

  module _ (rb : RingBuf) (api : ListApi MsgRequest) where
    pub record MsgClient : Type 0 where
      pub ring : rb.Buf
      pub client_fd : Socket
      pub request_list : api.Head
      pub cur_req_id : ℕ
      pub calls : List Call
      pub timers : List TimerCall

    -- The constructor. `none` is its exception. It leaves mCurReqId as the memory was.
    unfoldable pub msg_client : Socket → ℕ → Option MsgClient
    msg_client fd garbage = elim (rb.create socket_buf_size) [
      | none ↦ none
      | some ring ↦ some (record {
        ring = ring;
        client_fd = fd;
        request_list = api.init_list_head;
        cur_req_id = garbage;
        calls = [];
        timers = [];
      })
    ]

    unfoldable pub get_next_req_id : MsgClient → ℕ × MsgClient
    get_next_req_id c = let id = (c.cur_req_id + 1) % u32_mod in (id, record c { cur_req_id = id })

    -- What the system gives to one request: the address of its node, the handle of its timer, the
    -- time.
    pub record Grant : Type 0 where
      pub node : Option ℕ
      pub timer : Option ℕ
      pub now : Double

    unfoldable pub req_node_create : Grant → ℕ → Option C → EventType → Double → Option MsgRequest
    req_node_create g req_id cb type timeout = do
      node ← g.node
      timer ← g.timer
      some (record {
        node = node;
        req_id = req_id;
        type = type;
        cb = cb;
        time_start = g.now;
        timeout = timeout;
        timer = timer;
      })

    -- The timer is created and started, and the request waits in the list.
    enqueue : MsgClient → MsgRequest → MsgClient
    enqueue c req = record c {
      request_list = api.list_add req c.request_list;
      timers = c.timers ++ create_timer req.timer ∷ start_timer req.timer ∷ [];
    }

    unfoldable pub wait_for : MsgClient → Option MsgRequest → ℤ × MsgClient
    unfolding enqueue
    wait_for c none = (fail_code, c)
    wait_for c (some req) = (ok_code, enqueue c req)

    -- After the writes: nothing waits at a timeout of 0, nor after a failed write.
    after_writes : MsgClient → ℤ → Double → Option MsgRequest → ℤ × MsgClient
    unfolding wait_for
    after_writes c ret timeout req =
        if double_eq timeout (of_int (pos 0))
        then (ret, c)
        else if is_zero ret
        then wait_for c req
        else (ret, c)

    -- `none`: a write does not return.
    unfoldable pub send_request :
        MsgClient → Grant → EventType → List ℕ → ℕ → Option C → Double → Option (ℤ × MsgClient)
    unfolding get_next_req_id req_node_create after_writes
    send_request c g type buf len cb timeout = do
      let next = get_next_req_id c
      (ret, fd) ← send_frame c.client_fd next.0 buf len
      let sent = record (next.1) { client_fd = fd }
      some (after_writes sent ret timeout (req_node_create g next.0 cb type timeout))

    -- list_del and destroyReqNode
    unfoldable pub drop_request : MsgClient → MsgRequest → MsgClient
    drop_request c req = record c {
      request_list = api.list_del req.node c.request_list;
      timers = c.timers ++ destroy_timer req.timer ∷ [];
    }

    -- The client after a request ended with these calls of callbacks.
    abbrev pub ended : MsgClient → MsgRequest → List Call → MsgClient
    ended c req calls = drop_request (record c { calls = c.calls ++ calls }) req

    abbrev pub call_of : MsgRequest → ℤ → RspData → List Call
    call_of req ret rsp = elim req.cb [
      | none ↦ []
      | some cb ↦ record { cb = cb; ret = ret; rsp = rsp } ∷ []
    ]

    -- msgClientReqTimerCb, for the request that its timer belongs to.
    unfoldable pub msg_client_req_timer_cb : MsgClient → MsgRequest → MsgClient
    unfolding drop_request err_code
    msg_client_req_timer_cb c req = ended c req (call_of req (pos (err_code EventErr.timeout)) null)

    -- The loop of the destructor.
    unfoldable pub drop_all : MsgClient → List MsgRequest → MsgClient
    unfolding drop_request
    drop_all c [] = c
    drop_all c (req ∷ reqs) = drop_all (drop_request c req) reqs

    unfoldable pub destroy : MsgClient → MsgClient
    unfolding drop_all
    destroy c = drop_all c (api.entries c.request_list)
