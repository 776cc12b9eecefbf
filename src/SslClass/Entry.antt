-- ===== src/SslClass/Entry.antt =====
-- ssl_class.rs: an entry, and how each call of a connection changes it.
use honeybeepf_llm.Prelude.{
  ℕ, ◌+◌, ◌*◌, ◌-◌, ◌/◌, ◌%◌, ◌^◌, Bool, not, ◌&&◌, ◌||◌, Option, none, some, List, Bytes, get_or,
  ltb, leb, ◌==◌, if◌then◌else◌,
}
use honeybeepf_llm.SslClass.Types.{SslClass, code}

pub record ClassEntry : Type 0 where
  pub bits : ℕ

-- `& LOW_BYTE` and `& !LOW_BYTE` of a 64-bit word.
abbrev pub low_byte : ℕ → ℕ
low_byte bits = bits % 256

abbrev pub born : ClassEntry → ℕ
born entry = entry.bits - low_byte entry.bits

-- Added to Send by the first Read.
abbrev pub read_seen : ℕ
read_seen = 0x80

unfoldable pub new : ℕ → ClassEntry
new born_ns = (record { bits = born_ns - low_byte born_ns })

unfoldable pub class : ClassEntry → SslClass
class entry =
    let low = low_byte entry.bits in
    if low == 1 || low == 0x81
    then SslClass.send
    else if low == 2
    then SslClass.skip_request
    else if low == 3
    then SslClass.skip_connection
    else if low == 4
    then SslClass.h2
    else SslClass.unknown

abbrev pub is : ClassEntry → SslClass → Bool
is entry c = low_byte entry.bits == code c

-- `born | class`: the low byte of `born` is zero, so the bits are added.
abbrev pub with : ClassEntry → SslClass → ClassEntry
with entry c = (record { bits = born entry + code c })

unfoldable pub skip_connection : ClassEntry → ℕ → Option ClassEntry
skip_connection entry event_ns =
    if leb (born entry) event_ns then some (with entry SslClass.skip_connection) else none

-- `u32::from_le_bytes`
abbrev pub word : ℕ → ℕ → ℕ → ℕ → ℕ
word a b c d = a + 256 * b + 65536 * c + 16777216 * d

-- The methods' first four bytes as words: POST, PRI, "* HT", HTTP, GET, PUT, HEAD, DELE, PATC, OPTI, CONN.
abbrev pub post : ℕ
post = word 80 79 83 84

abbrev pub pri : ℕ
pri = word 80 82 73 32

abbrev pub preface_tail : ℕ
preface_tail = word 42 32 72 84

abbrev pub http : ℕ
http = word 72 84 84 80

abbrev pub get : ℕ
get = word 71 69 84 32

abbrev pub put : ℕ
put = word 80 85 84 32

abbrev pub head_method : ℕ
head_method = word 72 69 65 68

abbrev pub delete : ℕ
delete = word 68 69 76 69

abbrev pub patch : ℕ
patch = word 80 65 84 67

abbrev pub options : ℕ
options = word 79 80 84 73

abbrev pub connect : ℕ
connect = word 67 79 78 78

abbrev pub any_method : ℕ → Bool
any_method w =
    w == get
    || w == put
    || w == head_method
    || w == delete
    || w == patch
    || w == options
    || w == connect

-- The guarded arms of the `match` are tried in order; `gets_response` is the probe's look at a GET's path.
unfoldable pub after_write : ClassEntry → Bytes → ℕ → Bool → ClassEntry
after_write entry head len gets_response =
    let a = get_or head 0 0 in
    let b = get_or head 1 0 in
    let c = get_or head 2 0 in
    let d = get_or head 3 0 in
    let e = get_or head 4 0 in
    let f = get_or head 5 0 in
    let g = get_or head 6 0 in
    let h = get_or head 7 0 in
    let w = word a b c d in
    if is entry SslClass.skip_connection || is entry SslClass.h2
    then entry
    else if ltb len 8 || (a == 13 && b == 10)
    then if is entry SslClass.skip_request then with entry SslClass.unknown else entry
    else if w == post && e == 32
    then with entry SslClass.send
    else if w == pri && word e f g h == preface_tail
    then with entry SslClass.h2
    else if w == http && is entry SslClass.unknown && e == 47 && f == 49 && g == 46
    then with entry SslClass.skip_connection
    else if w == get && gets_response
    then with entry SslClass.send
    else if any_method w && not (is entry SslClass.send)
    then with entry SslClass.skip_request
    else entry

-- `entry.0 | READ_SEEN` where the low byte is 1.
unfoldable pub after_read : ClassEntry → ClassEntry
after_read entry =
    if is entry SslClass.send then record { bits = entry.bits + read_seen } else entry

unfoldable pub drops : ClassEntry → Bool
drops entry = is entry SslClass.skip_request || is entry SslClass.skip_connection

-- The 8 bytes from byte `at`, of words in little-endian order; `<<` drops what leaves the 64 bits.
abbrev pub word_at : List ℕ → ℕ → ℕ
word_at head at =
    let i = at / 8 in
    let shift = (at % 8) * 8 in
    if shift == 0
    then get_or head i 0
    else get_or head i 0 / 2 ^ shift + (get_or head (i + 1) 0 * 2 ^ (64 - shift)) % 2 ^ 64

-- `/responses/`: its first eight bytes as a word, and the last three.
abbrev pub first : ℕ
first = word 47 114 101 115 + 2 ^ 32 * word 112 111 110 115

abbrev pub rest : ℕ
rest = word 101 115 47 0

unfoldable pub responses_at : List ℕ → ℕ → Bool
responses_at head at = word_at head at == first && (word_at head (at + 8) % 2 ^ 24) == rest

unfoldable pub requests_response : List ℕ → Bool
unfolding responses_at
requests_response head =
    responses_at head 4 || responses_at head 7 || responses_at head 11 || responses_at head 14
