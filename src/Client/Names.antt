-- ===== src/Client/Names.antt =====
-- MiniMonClient/src/trace/names.cpp: the names of the kernel's codes and flags. The tables are those
-- whose constants are in MiniMonClient/src/trace/kernel.h; those of the Windows SDK are not modelled.
pub mod Operations
pub mod Minors
pub mod Creates
pub mod Information
pub mod Payloads
pub mod Devices
pub mod Majors
mod Tests
use minifilter_monitor.Common.{ℕ, List, [], ◌∷◌, ◌==◌, if◌then◌else◌}

-- `case value: return L"label";`
pub record Case : Type 0 where
  pub value : ℕ
  pub label : List ℕ

abbrev pub case : ℕ → List ℕ → Case
case value label = record { value = value; label = label }

-- A switch whose cases return a name, with what stands behind it.
unfoldable pub switch : List Case → ℕ → List ℕ → List ℕ
switch [] x default = default
switch (c ∷ cases) x default = if x == c.value then c.label else switch cases x default
