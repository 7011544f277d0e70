-- ===== src/Driver/Transaction/Tests.antt =====
-- The theorems on transactions at concrete ones.
use minifilter_monitor.Common.{◌≡◌, refl, true}
use minifilter_monitor.Driver.Status.{success}
use minifilter_monitor.Driver.State.{passive_level}
use minifilter_monitor.Driver.Transaction.{Enlistment, absent, already_defined, run_enlist}
use minifilter_monitor.Driver.Transaction.References.{run_enlist-balanced}

-- Another thread stores its context first.
abbrev raced : Enlistment
raced = record {
  has_transaction = true;
  lookup = absent;
  allocation = success;
  storing = already_defined 4;
}

raced_run : (run_enlist passive_level raced 6).sequence ≡ 4
unfolding run_enlist
raced_run = refl

run_enlist-balanced_example :
    (run_enlist passive_level raced 6).taken ≡ (run_enlist passive_level raced 6).released
run_enlist-balanced_example = run_enlist-balanced passive_level raced 6
