-- ===== src/Core/Event.antt =====
-- core/event.cpp, core/prio.h and core/asynctask.cpp. A pointer is a number, and 0 is nullptr; a
-- receiver is a number, and none stands for nullptr. A number that is an `int` stands modulo 2 ^ 32.
use cbbncd.Base.{ℕ, [], Option, none, some, Bool, true, false}
use cbbncd.Base.Text.{Bytes}

pub data Prio : Type 0 where
  low : Prio
  normal : Prio
  high : Prio

-- DATA is spelt `data_event`.
pub data EventType : Type 0 where
  data_event : EventType
  databuf : EventType
  tick : EventType
  connecting : EventType
  connected : EventType
  disconnected : EventType
  ssl_success : EventType
  new : EventType
  fail : EventType
  send_complete : EventType
  delete : EventType
  async_complete : EventType
  async_complete_p : EventType
  application_message : EventType
  flush : EventType

pub record Event : Type 0 where
  pub receiver : Option ℕ
  pub preceiver : Option ℕ
  pub type : EventType
  pub data_pointer : ℕ
  pub datalen : ℕ
  pub numdata : ℕ
  pub numdata2 : ℕ
  pub strdata : Bytes

-- -1.
abbrev pub minus_one : ℕ
minus_one = 4294967295

-- The four constructors with arguments.
abbrev pub event_data : Option ℕ → EventType → ℕ → ℕ → ℕ → Event
event_data er type numdata pointer datalen = record {
  receiver = er;
  preceiver = none;
  type = type;
  data_pointer = pointer;
  datalen = datalen;
  numdata = numdata;
  numdata2 = 0;
  strdata = [];
}

abbrev pub event_numbers : Option ℕ → EventType → ℕ → ℕ → Event
event_numbers er type numdata numdata2 = record (event_data er type numdata 0 0) {
  numdata2 = numdata2;
}

abbrev pub event_text : Option ℕ → EventType → ℕ → Bytes → ℕ → Event
event_text er type numdata strdata numdata2 = record (event_data er type numdata 0 0) {
  numdata2 = numdata2;
  strdata = strdata;
}

abbrev pub event_owner : Option ℕ → EventType → Event
event_owner er type = record (event_data none type 0 0 0) { preceiver = er }

-- A function is a number too.
pub record AsyncTask : Type 0 where
  pub task_receiver : Option ℕ
  pub task_type : ℕ
  pub taskfunction : Option ℕ
  pub taskfunctionp : Option ℕ
  pub task_data : ℕ
  pub datap : ℕ

abbrev pub number_task : Option ℕ → ℕ → Option ℕ → ℕ → AsyncTask
number_task er type function d = record {
  task_receiver = er;
  task_type = type;
  taskfunction = function;
  taskfunctionp = none;
  task_data = d;
  datap = 0;
}

abbrev pub pointer_task : Option ℕ → ℕ → Option ℕ → ℕ → AsyncTask
pointer_task er type function d = record {
  task_receiver = er;
  task_type = type;
  taskfunction = none;
  taskfunctionp = function;
  task_data = 0;
  datap = d;
}

-- The call that `execute` makes: the function, its receiver and its argument. None: it returns
-- false and calls nothing.
abbrev pub execute_of : Option ℕ → Option ℕ → AsyncTask → Option (ℕ × Option ℕ × ℕ)
execute_of (some function) f t = some (function, t.task_receiver, t.datap)
execute_of none (some function) t = some (function, t.task_receiver, t.task_data)
execute_of none none t = none

abbrev pub execute : AsyncTask → Option (ℕ × Option ℕ × ℕ)
execute t = execute_of t.taskfunctionp t.taskfunction t

abbrev pub is_pointer_of : Option ℕ → Bool
is_pointer_of none = false
is_pointer_of (some function) = true

abbrev pub data_is_pointer : AsyncTask → Bool
data_is_pointer t = is_pointer_of t.taskfunctionp
