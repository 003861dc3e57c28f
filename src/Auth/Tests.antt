-- ===== src/Auth/Tests.antt =====
-- Tests of the password file and of the addresses.
use halephant.Prelude.{◌≡◌, refl, some, codes}
use halephant.Auth.Address.{split_host_port, has_char}
use halephant.Auth.Address.Forms.{bracketed, split_host_port-Form}
use halephant.Auth.Pgpass.{parse_line, parse_pattern}
use halephant.Auth.Pgpass.Lines.{print_line, parse_line-print_line}

split_host_port-Form_example : split_host_port (codes "[::1]:6432") ≡ (codes "::1", codes "6432")
split_host_port-Form_example =
    split_host_port-Form (bracketed (codes "::1") (codes "6432") (unfold has_char in refl))

parse_line-print_line_example :
    parse_line (print_line (codes "db") (codes "*") (codes "*") (codes "app") (codes "a:b\\c"))
    ≡ some (record {
      hostname = parse_pattern (codes "db");
      port = parse_pattern (codes "*");
      database = parse_pattern (codes "*");
      username = parse_pattern (codes "app");
      password = codes "a:b\\c";
    })
parse_line-print_line_example =
    parse_line-print_line (codes "db") (codes "*") (codes "*") (codes "app") (codes "a:b\\c")
