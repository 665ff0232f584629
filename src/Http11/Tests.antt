-- ===== src/Http11/Tests.antt =====
-- A response of HTTP/1.1 that is read, and its header lines.
use scrapy.Prelude.{◌≡◌, refl, true, false, none, some, List, [], ◌∷◌, ◌++◌, All}
use scrapy.Http11.{
  finish, errback, cancelled, dataloss, response_failed, potential_data_loss, Event, receive,
  lose_connection, cancel_download, new_reader, run, step, data_received, connection_lost, called,
  fire, check_maxsize, check_warnsize, cancel,
}
use scrapy.Http11.Laws.{Delivered, transfer, run-Delivered, transfer_lem}
use scrapy.Http11.Parser.{
  Parser, new_parser, strip_cr, split_colon, strip, lstrip, rstrip, header_of, lines_received,
}
use scrapy.Http11.Folding.{Folded, IsFolded, all_lines, headers_in, Reads, lines_received_lem}

abbrev events : List Event
events =
    receive (1 ∷ 2 ∷ []) none
    ∷ receive (3 ∷ 4 ∷ []) none
    ∷ cancel_download
    ∷ lose_connection potential_data_loss
    ∷ []

too_long : (run events (new_reader 3 0 false false)).finished ≡ errback cancelled ∷ []
unfolding run step new_reader data_received called check_maxsize check_warnsize cancel fire
    connection_lost
too_long = refl

run-Delivered_example : Delivered 3 (run events (new_reader 3 0 false false)).finished
run-Delivered_example = run-Delivered 3 0 false false events

transfer_lem_example :
    (transfer
      ((1 ∷ 2 ∷ []) ∷ (3 ∷ []) ∷ [])
      (response_failed true)
      (new_reader 9 0 false false)).finished
    ≡ finish (1 ∷ 2 ∷ 3 ∷ []) (dataloss ∷ []) none ∷ []
transfer_lem_example =
    transfer_lem 9 0 false false ((1 ∷ 2 ∷ []) ∷ (3 ∷ []) ∷ []) (response_failed true)

-- "A: 1" and " 2", which continues it; and "bad", which has no colon.
abbrev sent : List Folded
sent =
    record { initial = b'A'; line = b':' ∷ b' ' ∷ b'1' ∷ []; continued = (b' ' ∷ b'2' ∷ []) ∷ [] }
    ∷ record { initial = b'b'; line = b'a' ∷ b'd' ∷ []; continued = [] }
    ∷ []

sent-IsFolded : All IsFolded sent
unfolding strip_cr
sent-IsFolded = (
  record { begins = refl; bare = refl; continues = ((refl, refl), tt) },
  (record { begins = refl; bare = refl; continues = tt }, tt),
)

received : headers_in sent ≡ (b'A' ∷ [], b'1' ∷ b' ' ∷ b'2' ∷ []) ∷ []
unfolding header_of split_colon strip lstrip rstrip
received = refl

lines_received_lem_example :
    (p : Parser) × (lines_received ((b'O' ∷ b'K' ∷ []) ∷ all_lines sent ++ [] ∷ []) new_parser
      ≡ some p)
    × (p.status_line ≡ some (b'O' ∷ b'K' ∷ []))
    × Reads sent p.headers
    × (p.complete ≡ true)
unfolding strip_cr
lines_received_lem_example = lines_received_lem (b'O' ∷ b'K' ∷ []) sent refl sent-IsFolded
