-- ===== src/TaskCli/Printing.antt =====
-- What the tool of src/task_cli.cpp prints: getErrMsgByCode and the callbacks of its requests.
use task_monitor.Base.{ℕ, zero, suc, List, [], ◌∷◌, Option, none, some, if◌then◌else◌, ◌==◌}
use task_monitor.Json.{Json, codes}
use task_monitor.Msg.{TaskAllRsp, TaskSimpleInfo, TaskDetailInfo}

-- getErrMsgByCode
unfoldable pub get_err_msg_by_code : ℕ → List ℕ
get_err_msg_by_code code =
    if code == 1
    then codes "error"
    else if code == 2
    then codes "timeout"
    else if code == 3
    then codes "unknown"
    else if code == 4
    then codes "system"
    else if code == 5
    then codes "parse error"
    else if code == 6
    then codes "memory error"
    else if code == 7
    then codes "unsupport"
    else if code == 8
    then codes "not found"
    else codes "unknown"

module _ (js : Json) where
  open js use {Double}

  -- A line of the output.
  pub data Line : Type 0 where
    command_error : List ℕ → Line
    head : Line
    row : List ℕ → ℕ → List ℕ → Line
    number_field : List ℕ → ℕ → Line
    text_field : List ℕ → List ℕ → Line
    double_field : List ℕ → Double → Line

  -- What is printed, and the code that the program exits with.
  abbrev pub Exit : Type 0
  Exit = List Line × ℕ

  -- Any callback at a code that is not EVENT_SUCC.
  abbrev pub fail_exit : ℕ → Exit
  unfolding get_err_msg_by_code
  fail_exit ret = (command_error (get_err_msg_by_code ret) ∷ [], 1)

  -- The rows of the reply, `left` from the end; `none` is a read past the end of the array.
  unfoldable pub print_rows : ℕ → List TaskSimpleInfo → Option (List Line)
  print_rows zero infos = some []
  print_rows (suc left) [] = none
  print_rows (suc left) (info ∷ infos) = elim (print_rows left infos) [
    | none ↦ none
    | some lines ↦ some (row info.name info.pid info.status ∷ lines)
  ]

  unfoldable pub all_task_cb : ℕ → TaskAllRsp → Option Exit
  unfolding print_rows get_err_msg_by_code
  all_task_cb ret rsp =
      if ret == 0
      then elim (print_rows rsp.count rsp.task_list) [
        | none ↦ none
        | some lines ↦ some (head ∷ lines, 0)
      ]
      else some (fail_exit ret)

  unfoldable pub single_task_cb : ℕ → TaskDetailInfo js → Exit
  unfolding get_err_msg_by_code
  single_task_cb ret rsp =
      if ret == 0
      then (
        number_field (codes "pid") rsp.pid
            ∷ text_field (codes "name") rsp.name
            ∷ text_field (codes "param") rsp.param
            ∷ text_field (codes "status") rsp.status
            ∷ double_field (codes "heartbeat") rsp.heartbeat
            ∷ [],
        0,
      )
      else fail_exit ret

  unfoldable pub task_action_cb : ℕ → Exit
  unfolding get_err_msg_by_code
  task_action_cb ret = if ret == 0 then ([], 0) else fail_exit ret
