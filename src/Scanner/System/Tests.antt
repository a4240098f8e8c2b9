-- ===== src/Scanner/System/Tests.antt =====
-- A scan of a machine with procfs, whose owners were never read.
use nas_conn_plus.Base.{◌≡◌, codes, str_eq, pos, [], none, true, false, ok, err}
use nas_conn_plus.Scanner.{ScanResult}
use nas_conn_plus.Scanner.Table.{opened}
use nas_conn_plus.Scanner.Table.Sound.{IsScan}
use nas_conn_plus.Scanner.Table.Tests.{ss_text}
use nas_conn_plus.Scanner.Owners.{Owners}
use nas_conn_plus.Scanner.Owners.Tests.{tree}
use nas_conn_plus.Scanner.System.{System, scan_system}
use nas_conn_plus.Scanner.System.Sound.{Refreshed, scan_system-Sound}

abbrev seen : System
seen = record {
  has_proc = true;
  tree = tree;
  first = (opened [] none, opened [] none);
  second = (opened [] none, opened [] none);
  now = 20000000000;
  is_darwin = false;
  lsof = err (codes "no lsof");
  ss = ok ss_text;
  my_pid = pos 7;
}

abbrev unread : Owners
unread = record { cached_inodes = []; last_refresh = 0 }

scan_system-Sound_example :
    ((r : ScanResult) → (scan_system seen unread).0 ≡ ok r → IsScan r)
    × Refreshed seen.tree seen.now unread (scan_system seen unread).1
scan_system-Sound_example = scan_system-Sound seen unread
