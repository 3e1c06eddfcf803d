-- ===== src/Output.antt =====
-- What the supervisor prints: the log lines of cmd/go-overlay/logging.go, and the output of the
-- services that `streamServiceLogs` of service.go reads and passes on. Widths count bytes, which are
-- the characters of ASCII.
pub mod Laws
use go_overlay.Base.{
  ℕ, zero, suc, ◌-◌, Text, lit, ◌==◌, Bool, ◌||◌, List, [], ◌∷◌, ◌++◌, Option, none, some,
  if◌then◌else◌, nat_eq, ltb, length,
}
use go_overlay.Ascii.{trim_right}
use go_overlay.Config.{Service}
use go_overlay.Supervisor.{ServiceState, pending, starting, running, stopping, stopped, failed}

-- `ServiceState.String`
unfoldable pub state_text : ServiceState → Text
state_text pending = lit "PENDING"
state_text starting = lit "STARTING"
state_text running = lit "RUNNING"
state_text stopping = lit "STOPPING"
state_text stopped = lit "STOPPED"
state_text failed = lit "FAILED"

-- The escape sequence with this text between `\033[` and `m`
abbrev escape : Text → Text
escape s = 27 ∷ lit "[" ++ (s ++ lit "m")

abbrev pub color_reset : Text
color_reset = escape (lit "0")

abbrev pub color_red : Text
color_red = escape (lit "31")

abbrev pub color_green : Text
color_green = escape (lit "32")

abbrev pub color_yellow : Text
color_yellow = escape (lit "33")

abbrev pub color_magenta : Text
color_magenta = escape (lit "35")

abbrev pub color_cyan : Text
color_cyan = escape (lit "36")

abbrev pub color_white : Text
color_white = escape (lit "37")

abbrev pub color_gray : Text
color_gray = escape (lit "90")

-- `getStateColor`
unfoldable pub get_state_color : ServiceState → Text
get_state_color pending = color_yellow
get_state_color starting = color_cyan
get_state_color running = color_green
get_state_color stopping = color_magenta
get_state_color stopped = color_gray
get_state_color failed = color_red

unfoldable pub colorize : Text → Text → Text
colorize color text = color ++ (text ++ color_reset)

unfoldable pub spaces : ℕ → Text
spaces zero = []
spaces (suc n) = b' ' ∷ spaces n

-- `%-*s`
unfoldable pub pad_right : ℕ → Text → Text
unfolding spaces
pad_right width s = s ++ spaces (width - length s)

-- `_logWithColor` on the text of its operands
unfoldable pub log_with_color : Text → Text → Text → Text
log_with_color level color message =
    color ++ lit "[" ++ pad_right 7 level ++ lit "]" ++ color_reset ++ lit " " ++ message

-- `getLongestServiceNameLength`, with the longest length so far
unfoldable pub longest_from : ℕ → List Service → ℕ
longest_from max_length [] = max_length
longest_from max_length (s ∷ services) =
    longest_from (if ltb max_length (length s.name) then length s.name else max_length) services

unfoldable pub get_longest_service_name_length : List Service → ℕ
unfolding longest_from
get_longest_service_name_length = longest_from 0

unfoldable pub format_service_name : Text → ℕ → Text
unfolding pad_right
format_service_name service_name max_length = pad_right max_length service_name

abbrev pub log_stream_buffer_size : ℕ
log_stream_buffer_size = 65536

-- `ReadSlice('\n')`: the bytes up to a newline, or up to the end or as many as the buffer has room for
unfoldable pub read_slice : ℕ → Text → Text × Text
read_slice zero s = ([], s)
read_slice (suc n) [] = ([], [])
read_slice (suc n) (c ∷ s) =
    let (chunk, rest) = read_slice n s in if nat_eq c 10 then (c ∷ [], s) else (c ∷ chunk, rest)

abbrev pub is_eol : ℕ → Bool
is_eol c = nat_eq c 13 || nat_eq c 10

-- `strings.TrimRight(string(chunk), "\r\n")`
unfoldable pub line_of : Text → Text
line_of chunk = trim_right is_eol chunk

-- `printServiceLine`: the line that is printed, if any
unfoldable pub print_service_line : Text → Text → Option Text
print_service_line formatted_name chunk =
    let line = line_of chunk in
    if line == [] then none else some (lit "[" ++ formatted_name ++ lit "] " ++ line)

abbrev pub add_line : Option Text → List Text → List Text
add_line none lines = lines
add_line (some line) lines = line ∷ lines

-- The loop of `streamServiceLogs` over a stream that ends. Each round takes a byte at least, so that
-- the length of the stream is enough fuel.
unfoldable pub stream_from : ℕ → Text → Text → List Text
stream_from zero formatted_name s = []
stream_from (suc n) formatted_name s =
    let (chunk, rest) = read_slice log_stream_buffer_size s in
    let lines = stream_from n formatted_name rest in
    if s == [] then [] else add_line (print_service_line formatted_name chunk) lines

-- `streamServiceLogs`: the lines that are printed
unfoldable pub stream_service_logs : Text → Text → ℕ → List Text
unfolding stream_from format_service_name
stream_service_logs stream service_name max_length =
    stream_from (length stream) (format_service_name service_name max_length) stream
