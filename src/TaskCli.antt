-- ===== src/TaskCli.antt =====
-- src/task_cli.cpp: the command line tool.
-- The buffer that cli_readio_cb reads into is the one that it declares; the call of usage
-- lacks an argument in the source. What is printed is a list of lines. The tool exits
-- where it fails, and the calls of the system before an exit are not recorded.
pub mod Printing
pub mod Options
pub mod Dispatching
pub mod Showing
use task_monitor.Base.{
  ℕ, zero, suc, List, [], ◌∷◌, ◌++◌, Bool, true, false, ◌||◌, Option, none, some, if◌then◌else◌, ℤ,
  pos, is_zero, is_neg, bytes_eq, ◌==◌, not,
}
use task_monitor.Socket.{Socket}
use task_monitor.Ring.{RingBuf}
use task_monitor.ListApi.{ListApi}
use task_monitor.Json.{Json, Alloc, codes}
use task_monitor.Msg.{TaskAction, action_code, TaskAllRsp, TaskSimpleInfo, TaskDetailInfo}
use task_monitor.Server.Handlers.{strncpy}
use task_monitor.Client.{MsgRequest, MsgClient, Grant, msg_client}
use task_monitor.Client.Requests.{
  send_req_query_single_task, send_req_query_all_task, send_req_task_action,
}
use task_monitor.Client.Receive
use task_monitor.TaskObjClient.{ReadAnswer, closed, interrupted, failed, got}

-- struct msg_data
pub record MsgData : Type 0 where
  pub is_list : Bool
  pub pid : ℤ
  pub name : List ℕ
  pub action : ℕ

-- What a call of getopt says, the option with its argument: `unknown` is '?', `at_end` is -1, and
-- `zero_char` is 0, which ends the loop.
pub data Opt : Type 0 where
  list_opt unknown at_end zero_char : Opt
  pid_opt name_opt action_opt : List ℕ → Opt

-- The parsing: it goes on, it ended with these options, or the program exited with a code.
pub data Parsing : Type 0 where
  running : Parsing
  parsed : MsgData → Parsing
  exited : ℕ → Parsing

abbrev pub no_data : MsgData
no_data = record { is_list = false; pid = pos 0; name = []; action = 0 }

-- The number that "start", "stop" and "restart" name.
unfoldable pub action_named : List ℕ → Option ℕ
unfolding bytes_eq action_code
action_named s =
    if bytes_eq s (codes "start")
    then some (action_code TaskAction.start)
    else if bytes_eq s (codes "stop")
    then some (action_code TaskAction.stop)
    else if bytes_eq s (codes "restart")
    then some (action_code TaskAction.restart)
    else none

-- The body of the loop in `main`, but for the end of the loop. `atoi` is the C library's.
unfoldable pub take_option : (List ℕ → ℤ) → Opt → MsgData → Option MsgData
unfolding action_named strncpy
take_option atoi Opt.list_opt d = some (record d { is_list = true })
take_option atoi (Opt.pid_opt arg) d =
    if is_zero (atoi arg) then none else some (record d { pid = atoi arg })
take_option atoi (Opt.name_opt arg) d = some (record d { name = strncpy arg 31 })
take_option atoi (Opt.action_opt arg) d = elim (action_named arg) [
  | none ↦ none
  | some n ↦ some (record d { action = n })
]
take_option atoi Opt.unknown d = some d
take_option atoi Opt.at_end d = some d
take_option atoi Opt.zero_char d = some d

-- Whether getopt returned 0.
abbrev pub is_end : Opt → Bool
is_end Opt.zero_char = true
is_end _ = false

-- The loop, for `rounds` rounds; `getopt i` is what the i-th call says. usage exits with 1.
unfoldable pub parse_options : (List ℕ → ℤ) → (ℕ → Opt) → ℕ → ℕ → MsgData → Parsing
unfolding take_option strncpy
parse_options atoi getopt zero i d = running
parse_options atoi getopt (suc rounds) i d =
    if is_end (getopt i)
    then parsed (record d { name = strncpy d.name 31 })
    else elim (take_option atoi (getopt i) d) [
      | none ↦ exited 1
      | some d' ↦ parse_options atoi getopt rounds (suc i) d'
    ]

-- The callbacks that the tool passes to its requests. `wild` is a number that stands where a function
-- is expected.
pub data CliCb : Type 0 where
  all_tasks single_task : CliCb
  wild : ℕ → CliCb

-- The callback of a command: the number of the action, where NULL is no callback.
abbrev pub wild_cb : ℕ → Option CliCb
wild_cb zero = none
wild_cb (suc n) = some (wild (suc n))

module _ (js : Json) (rb : RingBuf) (api : ListApi (MsgRequest js CliCb)) where
  abbrev Client : Type 0
  Client = MsgClient js CliCb rb api

  -- What the system answers to connect_server.
  pub record Answers : Type 0 where
    pub fd : ℤ
    pub connected : ℤ
    pub peer : Socket
    pub garbage : ℕ
    pub io_ok : Bool

  -- connect_server: the client, or NULL. The outer `none` is the exception of the client's
  -- constructor. clear_global_data, which it calls, is not in this file.
  unfoldable pub connect_server : Answers → Option (Option Client)
  connect_server a =
      if is_neg a.fd
      then some none
      else if is_zero a.connected
      then elim (msg_client js CliCb rb api a.peer a.garbage) [
        | none ↦ none
        | some client ↦ if a.io_ok then some (some client) else some none
      ]
      else some none

  -- `strlen(name)`
  abbrev has_name : List ℕ → Bool
  has_name [] = false
  has_name (c ∷ cs) = true

  -- The request that inst_init_cb sends. sendReqTaskAction takes the action and a callback, for which
  -- the action is given again; it writes a `pid` that it does not declare, which is an argument here.
  unfoldable pub send_command :
      Grant js CliCb rb api → Alloc → ℤ → MsgData → Client → Option (ℤ × Client)
  unfolding send_req_query_single_task send_req_query_all_task send_req_task_action
  send_command g alloc pid d c =
      if d.is_list
      then if not (is_zero d.pid) || has_name d.name
        then send_req_query_single_task js CliCb rb api c g alloc d.pid (some d.name)
            (some single_task)
        else send_req_query_all_task js CliCb rb api c g alloc (some all_tasks)
      else send_req_task_action js CliCb rb api c g alloc pid (pos d.action) (wild_cb d.action)

  -- inst_init_cb: the client after the request, or the code that the program exits with.
  pub data Started : Type 0 where
    asked : ℤ → Client → Started
    gave_up : ℕ → Started

  unfoldable pub inst_init_cb :
      Answers → Grant js CliCb rb api → Alloc → ℤ → MsgData → Option Started
  unfolding connect_server send_command
  inst_init_cb a g alloc pid d = elim (connect_server a) [
    | none ↦ none
    | some none ↦ some (gave_up 1)
    | some (some c) ↦ elim (send_command g alloc pid d c) [
      | none ↦ none
      | some (ret, c') ↦ some (asked ret c')
    ]
  ]

  -- The reading loop of cli_readio_cb. `none`: the answers ran out.
  unfoldable pub cli_readio_cb : List ReadAnswer → Bool → Client → Option Started
  unfolding Receive.recv_data
  cli_readio_cb [] malloc_ok c = none
  cli_readio_cb (got buf ∷ answers) malloc_ok c =
      let (ret, c') = Receive.recv_data js CliCb rb api c malloc_ok buf in some (asked ret c')
  cli_readio_cb (interrupted ∷ answers) malloc_ok c = cli_readio_cb answers malloc_ok c
  cli_readio_cb (_ ∷ answers) malloc_ok c = some (gave_up 1)

  -- How `main` ends, if it does.
  pub data Ending : Type 0 where
    still_parsing : Ending
    exit_with : ℕ → Ending
    no_instance : Ending
    started : Option Started → Ending

  -- `inst_ok` says whether libev_api_inst_create gives an instance, whose loop calls inst_init_cb.
  unfoldable pub main :
      (List ℕ → ℤ) → (ℕ → Opt) → ℕ → Bool → Answers → Grant js CliCb rb api → Alloc → ℤ → Ending
  unfolding parse_options inst_init_cb
  main atoi getopt rounds inst_ok a g alloc pid =
      elim (parse_options atoi getopt rounds 0 no_data) [
        | running ↦ still_parsing
        | exited n ↦ exit_with n
        | parsed d ↦ if inst_ok then started (inst_init_cb a g alloc pid d) else no_instance
      ]
