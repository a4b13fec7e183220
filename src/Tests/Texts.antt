-- ===== src/Tests/Texts.antt =====
-- The address texts and the stream parsers of ftp/.
use cbbncd.Base.{
  ℕ, ◌≡◌, refl, true, false, [], ◌∷◌, some, arith, length, map, take, replicate, length-replicate,
}
use cbbncd.Base.Int.{pos, ◌+ℤ◌, ◌*ℤ◌}
use cbbncd.Base.Text.{Bytes, codes, find_from, to_string, stoi, stol, to_int}
use cbbncd.Types.{ipv6, no_family}
use cbbncd.Ftp.PasvString.{
  parsed, throws, from_pasv_string, to_pasv_string, replace_bytes, from_extended_pasv_string,
  to_extended_pasv_string,
}
use cbbncd.Ftp.PasvString.RoundTrip.{
  dotted, from_pasv_string-to_pasv_string, from_extended_pasv_string-to_extended_pasv_string,
  from_pasv_string_throws,
}
use cbbncd.Util.{find_text, split}
use cbbncd.Ftp.Buffer.{Buffer, append}
use cbbncd.Ftp.Buffer.Contents.{IsValid, Appended, append-Appended}
use cbbncd.Ftp.CommandParser.{CommandParser, get_command_trimmed_upper, to_upper}
use cbbncd.Ftp.CommandParser.Trim.{CutsAt, get_command_trimmed_upper_lem}
use cbbncd.Ftp.CommandParser
use cbbncd.Ftp.CommandParser.Lines.{Gathers, parse-Gathers}
use cbbncd.Ftp.ResponseParser.{ResponseParser}
use cbbncd.Ftp.ResponseParser

to_pasv_string_runs : to_pasv_string (codes "10.0.0.1") 50002 ≡ some (codes "10,0,0,1,195,82")
unfolding to_pasv_string replace_bytes find_from to_string
to_pasv_string_runs = refl

from_pasv_string_runs :
    from_pasv_string (codes "10,0,0,1,195,82") ≡ parsed (codes "10.0.0.1", pos 50002)
unfolding from_pasv_string find_from stoi ◌+ℤ◌ ◌*ℤ◌
from_pasv_string_runs = refl

extended_runs : from_extended_pasv_string (codes "|||6446|") ≡ parsed (no_family, [], pos 6446)
unfolding from_extended_pasv_string find_from stol to_int
extended_runs = refl

from_pasv_string-to_pasv_string_example :
    (text : Bytes) × (to_pasv_string (dotted (codes "10") (codes "0") (codes "0") (codes "1")) 50002
      ≡ some text)
    × (from_pasv_string text
        ≡ parsed (dotted (codes "10") (codes "0") (codes "0") (codes "1"), pos 50002))
from_pasv_string-to_pasv_string_example =
    from_pasv_string-to_pasv_string (codes "10") (codes "0") (codes "0") (codes "1") 50002
      ((refl, (refl, tt)), (refl, (refl, tt))) ((refl, tt), (refl, tt)) ((refl, tt), (refl, tt))
      ((refl, tt), (refl, tt)) (omega arith)

from_extended_pasv_string-to_extended_pasv_string_example :
    from_extended_pasv_string (to_extended_pasv_string ipv6 (codes "::1") 50002)
    ≡ parsed (ipv6, codes "::1", pos 50002)
from_extended_pasv_string-to_extended_pasv_string_example =
    from_extended_pasv_string-to_extended_pasv_string ipv6 (codes "::1") 50002 (λ e. cc)
      (refl, (refl, (refl, tt))) (omega arith)

-- "PORT A,B,C,D,E,F"
from_pasv_string_throws_example : from_pasv_string (codes "A,B,C,D,E,F") ≡ throws
from_pasv_string_throws_example =
    from_pasv_string_throws (codes "A") (codes "B") (codes "C") (codes "D") (codes "E") (codes "F")
      (refl, tt) (refl, tt) (refl, tt) (refl, tt) (refl, tt) b'E' refl refl

abbrev pub malloc : ℕ → Bytes
malloc n = replicate n 7

pub length-malloc : (n : ℕ) → length (malloc n) ≡ n
length-malloc n = length-replicate n 7

abbrev pub small_buffer : Buffer
small_buffer = record { databuflen = 8; databuf = malloc 8; databufpos = 0 }

pub small_buffer-IsValid : IsValid small_buffer
small_buffer-IsValid = record { block = refl; within = omega arith; some_room = omega arith }

append-Appended_example :
    Appended small_buffer
      (codes "PASV\r\nAUTH TLS\r\n")
      (append malloc small_buffer (codes "PASV\r\nAUTH TLS\r\n"))
append-Appended_example =
    append-Appended malloc length-malloc small_buffer (codes "PASV\r\nAUTH TLS\r\n")
      small_buffer-IsValid (omega arith)

abbrev pub commands : CommandParser
commands = record { buffer = small_buffer; complete = false }

parse-Gathers_example :
    Gathers commands b'P' (codes "ASV\r\n") (CommandParser.parse malloc commands (codes "PASV\r\n"))
parse-Gathers_example =
    parse-Gathers malloc length-malloc commands b'P' (codes "ASV\r\n") small_buffer-IsValid
      (omega arith)

abbrev pub responses : ResponseParser
responses = record { buffer = small_buffer; databufcode = 0; complete = false }

abbrev typed : CommandParser
typed = record {
  buffer = record { databuflen = 8; databuf = codes "pasv\r\n##"; databufpos = 6 };
  complete = true;
}

get_command_trimmed_upper_runs : get_command_trimmed_upper typed ≡ codes "PASV"
unfolding get_command_trimmed_upper
get_command_trimmed_upper_runs = refl

get_command_trimmed_upper_lem_example :
    (n : ℕ) × CutsAt (codes "pasv\r\n") 6 n
    × (get_command_trimmed_upper typed ≡ map to_upper (take n (codes "pasv\r\n")))
get_command_trimmed_upper_lem_example = get_command_trimmed_upper_lem typed

split_runs : split (codes "a bc d") (codes " ") ≡ some (codes "a" ∷ codes "bc" ∷ codes "d" ∷ [])
unfolding split find_text
split_runs = refl
