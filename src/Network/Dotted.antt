-- ===== src/Network/Dotted.antt =====
-- The text of an IPv4 address: net.IP.String of the four bytes of uint32ToIP.
use srv.Model.Memory.{codes}
use srv.Commands.Decimal.{print_number}
use srv.Commands.Text.{Text}
use srv.Base.{◌%◌, ◌/◌, ◌++◌, ℕ}

-- the byte that is `unit` high
abbrev pub byte_of : ℕ → ℕ → Text
byte_of address unit = print_number (address / unit % 256)

unfoldable pub dotted : ℕ → Text
dotted address =
    byte_of address 16777216
    ++ (codes "."
        ++ (byte_of address 65536
            ++ (codes "." ++ (byte_of address 256 ++ (codes "." ++ byte_of address 1)))))
