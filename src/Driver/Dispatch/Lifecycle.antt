-- ===== src/Driver/Dispatch/Lifecycle.antt =====
-- MiniMonFlt/src/dispatch.cpp: the entry of one operation.
use minifilter_monitor.Common.{ap, ◌≡◌, refl, arith}
use minifilter_monitor.Protocol.{Record}
use minifilter_monitor.Driver.State.{Driver}
use minifilter_monitor.Driver.Records.{append}
use minifilter_monitor.Driver.Transaction.{enlist}
use minifilter_monitor.Driver.Dispatch.{Capture, Operation, complete, enlist_if_possible}

enlist_if_possible_lem :
    (o : Operation) (d : Driver)
    → ((enlist_if_possible o d).1.store ≡ d.store)
      × ((enlist_if_possible o d).1.client_port ≡ d.client_port)
unfolding enlist_if_possible enlist
enlist_if_possible_lem o d = ground arith

module _ (c : Capture) where
  -- The completion lists the entry's record, under its number, behind the others.
  pub complete_lem :
      (o : Operation) (e : Record) (d : Driver)
      → (r : Record) × ((complete c o e d).store ≡ append r d.store)
        × (r.sequence_number ≡ e.sequence_number)
        × ((complete c o e d).client_port ≡ d.client_port)
  unfolding complete
  complete_lem o e d =
      let (same_store, same_port) = enlist_if_possible_lem o d in
      (
        record e {
          record_data = c.populate_post_operation (enlist_if_possible o d).0 e.record_data;
        },
        ap (append _) same_store,
        refl,
        same_port,
      )
