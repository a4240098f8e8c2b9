-- ===== src/Scanner/Owners/Commands.antt =====
-- The choice between procfs and the command of the system.
use nas_conn_plus.Base.{ℤ, Str, ◌≡◌, subst, inl, inr, Result, ok, err, Bool-cases, arith}
use nas_conn_plus.Scanner.{ScanResult}
use nas_conn_plus.Scanner.Table.Sound.{IsScan}
use nas_conn_plus.Scanner.Table.Output.{parse_output-IsScan}
use nas_conn_plus.Scanner.Table.Tools.{parse_ss_output, parse_lsof_output}
use nas_conn_plus.Scanner.Owners.{Sources, parsed, by_command, or_command, scan}

parsed-IsScan :
    (parse : Str → ℤ → ScanResult) (my_pid : ℤ) (out : Result Str Str) (r : ScanResult)
    → ((text : Str) → IsScan (parse text my_pid))
    → parsed parse my_pid out ≡ ok r
    → IsScan r
unfolding parsed
parsed-IsScan parse my_pid (err e) r v q = cc
parsed-IsScan parse my_pid (ok text) r v q =
    let same : parse text my_pid ≡ r = ground arith in subst IsScan same (v text)

by_command-IsScan : (s : Sources) (r : ScanResult) → by_command s ≡ ok r → IsScan r
unfolding by_command
by_command-IsScan s r e = elim (Bool-cases s.is_darwin) [
  | inl mac ↦
      parsed-IsScan parse_lsof_output s.my_pid s.lsof r
        (λ text. (parse_output-IsScan text s.my_pid).1) (ground (arith, mac))
  | inr linux ↦
      parsed-IsScan parse_ss_output s.my_pid s.ss r (λ text. (parse_output-IsScan text s.my_pid).0)
        (ground (arith, linux))
]

or_command-IsScan :
    (s : Sources) (found : Result Str ScanResult) (r : ScanResult)
    → ((q : ScanResult) → found ≡ ok q → IsScan q)
    → or_command s found ≡ ok r
    → IsScan r
unfolding or_command
or_command-IsScan s (ok q) r v e = v r e
or_command-IsScan s (err x) r v e = by_command-IsScan s r e

pub scan-IsScan :
    (s : Sources) (r : ScanResult)
    → ((q : ScanResult) → s.proc_fs ≡ ok q → IsScan q)
    → scan s ≡ ok r
    → IsScan r
unfolding scan
scan-IsScan s r v e = elim (Bool-cases s.has_proc) [
  | inl on ↦ or_command-IsScan s s.proc_fs r v (ground (arith, on))
  | inr off ↦ by_command-IsScan s r (ground (arith, off))
]
