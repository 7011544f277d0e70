-- ===== src/Client/Sink/Tests.antt =====
-- MiniMonClient/src/sink.cpp at concrete lines.
use minifilter_monitor.Common.{◌≡◌, refl, true, List, [], ◌∷◌, ◌++◌, codes}
use minifilter_monitor.Client.Sink.{
  Sink, FileSystem, Output, crlf_line, find, add_line, open_found, open_base, write, write_records,
}
use minifilter_monitor.Client.Sink.Written.{lines_for, extended, find-write_records}

-- Every path can be opened; the altitude is put behind the base path.
abbrev plain : FileSystem
plain = record {
  opens = λ path. true;
  split_path = λ base altitude. base ++ (b'.' ∷ altitude);
  convert_to_utf8 = λ line. line;
}

abbrev closed : Sink
closed = record {
  base_path = codes "out";
  split_by_altitude = true;
  header_text = codes "h;";
  files = [];
}

-- Behind Open.
abbrev ready : Sink
ready = record closed {
  files = record { path = codes "out"; lines = crlf_line plain (codes "h;") ∷ [] } ∷ [];
}

opens_base : open_base plain closed ≡ (true, ready)
unfolding open_base find
opens_base = refl

abbrev outputs : List Output
outputs =
    record { altitude = codes "7"; line = codes "a;"; good = true }
    ∷ record { altitude = []; line = codes "b;"; good = true }
    ∷ record { altitude = codes "7"; line = codes "c;"; good = true }
    ∷ []

abbrev written : Sink
written = record ready {
  files =
      record {
        path = codes "out.7";
        lines =
            crlf_line plain (codes "h;")
            ∷ crlf_line plain (codes "a;")
            ∷ crlf_line plain (codes "c;")
            ∷ [];
      }
      ∷ record {
        path = codes "out";
        lines = crlf_line plain (codes "h;") ∷ crlf_line plain (codes "b;") ∷ [];
      }
      ∷ [];
}

split_run : write_records plain outputs ready ≡ (true, written)
unfolding write_records write open_found find add_line
split_run = refl

find-write_records_example :
    find (codes "out.7") written.files
    ≡ extended
        (find (codes "out.7") ready.files)
        (crlf_line plain ready.header_text)
        (lines_for plain ready (codes "out.7") outputs)
find-write_records_example =
    find-write_records plain outputs ready written split_run (codes "out.7")
