-- ===== src/Peer/MessageId.antt =====
-- The constants of internal/peer/message.go. The ids are int8; -1 stands for a keep-alive.
use p2p_file_distribution.Base.Int.{ℤ, pos, negsuc}

abbrev pub keep_alive : ℤ
keep_alive = negsuc 0

abbrev pub choke : ℤ
choke = pos 0

abbrev pub unchoke : ℤ
unchoke = pos 1

abbrev pub interested : ℤ
interested = pos 2

abbrev pub not_interested : ℤ
not_interested = pos 3

abbrev pub have : ℤ
have = pos 4

abbrev pub bitfield : ℤ
bitfield = pos 5

abbrev pub request : ℤ
request = pos 6

abbrev pub piece : ℤ
piece = pos 7

abbrev pub cancel : ℤ
cancel = pos 8

abbrev pub port : ℤ
port = pos 9
