-- ===== src/Driver/Port/Messages.antt =====
-- MessageNotify of MiniMonFlt/src/port.cpp: its answers.
use minifilter_monitor.Common.{
  ℕ, ◌≤◌, ◌<◌, ◌≡◌, refl, [], ◌++◌, Option, none, some, arith, true, is_some, ◌⊎◌, Bool-cases,
  Option-cases, inl, inr, ltb, ◌==◌, ◌%◌,
}
use minifilter_monitor.Protocol.{version_size, command_message_size}
use minifilter_monitor.Driver.Status.{NtStatus, invalid_parameter, datatype_misalignment}
use minifilter_monitor.Driver.State.{Driver}
use minifilter_monitor.Driver.Records.{long_mod}
use minifilter_monitor.Driver.Records.Bounds.{IsCounted}
use minifilter_monitor.Driver.Records.Drains.{drain_splits, drain-IsCounted}
use minifilter_monitor.Driver.Port.{
  Message, Answer, Input, command, unreadable, record_alignment, version_alignment,
  get_records_command, get_version_command, get_records, get_version, run_command, receive,
  message_notify, fails,
}

abbrev pub size_or_zero : Option ℕ → ℕ
size_or_zero none = 0
size_or_zero (some w) = w

-- What holds of every answer: it fits, it takes a prefix of the listed records and keeps the rest
-- counted, and where *pWrittenSize is not assigned the driver is as before.
pub record IsSafe (held : ℕ) (m : Message) (d : Driver) (a : Answer) : Type 0 where
  pub fits : size_or_zero a.written_size ≤ m.output_size
  pub untouched :
      (is_some a.written_size ≡ true) ⊎ ((a.driver ≡ d) × (a.records ≡ []) × (a.version ≡ none))
  pub split : a.records ++ a.driver.store.list ≡ d.store.list
  pub counted : IsCounted held a.driver.store
  pub port_kept : a.driver.client_port ≡ d.client_port

fails-IsSafe :
    (held : ℕ) (m : Message) (d : Driver) (status : NtStatus)
    → IsCounted held d.store
    → IsSafe held m d (fails status d)
fails-IsSafe held m d status v = record {
  fits = omega arith;
  untouched = inr (refl, refl, refl);
  split = refl;
  counted = v;
  port_kept = refl;
}

get_records-IsSafe :
    (held : ℕ) (m : Message) (output : ℕ) (d : Driver)
    → m.output_size < long_mod
    → IsCounted held d.store
    → IsSafe held m d (get_records m output d)
unfolding get_records
get_records-IsSafe held m output d h v = elim (Bool-cases (m.output_size == 0)) [
  | inl empty ↦ rw empty (fails-IsSafe held m d invalid_parameter v)
  | inr room ↦ elim (Bool-cases (output % record_alignment == 0)) [
    | inr odd ↦ rw (room, odd) (fails-IsSafe held m d datatype_misalignment v)
    | inl aligned ↦
        let (split, size, fits, counted, same_drops, same_sequence) =
          drain_splits m.fault m.output_size held d.store h v in
        rw (room, aligned)
          (record {
            fits = fits;
            untouched = inl refl;
            split = split;
            counted = drain-IsCounted m.fault m.output_size held d.store h v;
            port_kept = refl;
          })
  ]
]

get_version-IsSafe :
    (held : ℕ) (m : Message) (output : ℕ) (d : Driver)
    → IsCounted held d.store
    → IsSafe held m d (get_version m output d)
unfolding get_version
get_version-IsSafe held m output d v = elim (Bool-cases (ltb m.output_size version_size)) [
  | inl short ↦ rw short (fails-IsSafe held m d invalid_parameter v)
  | inr room ↦ elim (Bool-cases (output % version_alignment == 0)) [
    | inr odd ↦ rw (room, odd) (fails-IsSafe held m d datatype_misalignment v)
    | inl aligned ↦ elim (Option-cases (m.fault 0)) [
      | inr (code, e) ↦ rw (room, aligned, e) (fails-IsSafe held m d code v)
      | inl e ↦
          rw (room, aligned, e)
            (record {
              fits = ground arith;
              untouched = inl refl;
              split = refl;
              counted = v;
              port_kept = refl;
            })
    ]
  ]
]

run_command-IsSafe :
    (held c : ℕ) (m : Message) (output : ℕ) (d : Driver)
    → m.output_size < long_mod
    → IsCounted held d.store
    → IsSafe held m d (run_command c m output d)
unfolding run_command
run_command-IsSafe held c m output d h v = elim (Bool-cases (c == get_records_command)) [
  | inl q ↦ rw q (get_records-IsSafe held m output d h v)
  | inr n ↦ elim (Bool-cases (c == get_version_command)) [
    | inl q ↦ rw (n, q) (get_version-IsSafe held m output d v)
    | inr k ↦ rw (n, k) (fails-IsSafe held m d invalid_parameter v)
  ]
]

receive-IsSafe :
    (held : ℕ) (input : Option Input) (output : Option ℕ) (m : Message) (d : Driver)
    → m.output_size < long_mod
    → IsCounted held d.store
    → IsSafe held m d (receive input output m d)
unfolding receive
receive-IsSafe held none o m d h v = fails-IsSafe held m d invalid_parameter v
receive-IsSafe held (some i) none m d h v = fails-IsSafe held m d invalid_parameter v
receive-IsSafe held (some (unreadable code)) (some o) m d h v =
    elim (Bool-cases (ltb m.input_size command_message_size)) [
      | inl short ↦ rw short (fails-IsSafe held m d invalid_parameter v)
      | inr long ↦ rw long (fails-IsSafe held m d code v)
    ]
receive-IsSafe held (some (command c)) (some o) m d h v =
    elim (Bool-cases (ltb m.input_size command_message_size)) [
      | inl short ↦ rw short (fails-IsSafe held m d invalid_parameter v)
      | inr long ↦ rw long (run_command-IsSafe held c m o d h v)
    ]

-- Whatever the client sends (no buffer, a short or unreadable input, an unknown command, a buffer that
-- is too small, misaligned or faults): the size reported fits the client's buffer, the records handed
-- over are the oldest ones and the others stay listed and counted, the client stays connected, and
-- where no size is reported nothing has changed. A ULONG gives the size of the client's buffer.
pub message_notify-IsSafe :
    (held : ℕ) (m : Message) (d : Driver)
    → m.output_size < long_mod
    → IsCounted held d.store
    → IsSafe held m d (message_notify m d)
unfolding message_notify
message_notify-IsSafe held m d h v = receive-IsSafe held m.input m.output m d h v
