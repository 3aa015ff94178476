-- ===== src/Blk.antt =====
-- kernel/blk_drv/ll_rw_blk.c and blk.h: requests to block devices. A device's queue is the list of
-- its requests along `next`, the current one first; the table of requests is the list of whether
-- each slot is free (`dev < 0`). What the device driver does with a request is not modelled.
pub mod Elevator
pub mod Slots
mod Tests
use lambda_linux_kernel.Prelude.{
  ℕ, zero, suc, ◌+◌, ◌*◌, ◌/◌, ◌%◌, ◌^◌, Bool, true, false, not, ◌&&◌, ◌||◌, Option, none, some,
  List, [], ◌∷◌, ltb, leb, ◌==◌, if◌then◌else◌, get_or, set, is_some,
}

-- `struct request`; the buffer is its number, and there is none for paging.
pub record Request : Type 0 where
  pub dev : ℕ
  pub cmd : ℕ
  pub sector : ℕ
  pub nr_sectors : ℕ
  pub bh : Option ℕ

-- `IN_ORDER`
unfoldable pub in_order : Request → Request → Bool
in_order s1 s2 =
    ltb s1.cmd s2.cmd
    || s1.cmd == s2.cmd && (ltb s1.dev s2.dev || s1.dev == s2.dev && ltb s1.sector s2.sector)

-- Whether the new request goes between `tmp` and `next`.
unfoldable pub stops : Request → Request → Request → Bool
stops req tmp next =
    if not (is_some req.bh)
    then is_some next.bh
    else (in_order tmp req || not (in_order tmp next)) && in_order req next

-- The loop of `add_request`, from `tmp` on.
unfoldable pub insert : Request → Request → List Request → List Request
insert req tmp [] = tmp ∷ req ∷ []
insert req tmp (next ∷ rest) =
    if stops req tmp next then tmp ∷ req ∷ next ∷ rest else tmp ∷ insert req next rest

-- The queue after, and whether the driver is started.
unfoldable pub add_request : Request → List Request → List Request × Bool
add_request req [] = (req ∷ [], true)
add_request req (tmp ∷ rest) = (insert req tmp rest, false)

abbrev pub nr_request : ℕ
nr_request = 32

-- `while (--req >= request) if (req->dev<0) break;` from slot `limit` down.
pub find_request : List Bool → ℕ → Option ℕ
find_request free zero = none
find_request free (suc i) =
    let below = find_request free i in if get_or free i false then some i else below

-- READ, WRITE, READA and WRITEA.
pub data Command : Type 0 where
  read write read_ahead write_ahead : Command

abbrev pub is_ahead : Command → Bool
is_ahead read_ahead = true
is_ahead write_ahead = true
is_ahead _ = false

abbrev pub is_read : Command → Bool
is_read read = true
is_read read_ahead = true
is_read _ = false

abbrev pub command_number : Command → ℕ
command_number c = if is_read c then 0 else 1

-- The last third of the requests are only for reads.
abbrev pub slot_limit : Command → ℕ
slot_limit c = if is_read c then nr_request else nr_request * 2 / 3

-- What `make_request` reads of a buffer; `b_blocknr` is an unsigned long.
pub record Buffer : Type 0 where
  pub number : ℕ
  pub dev : ℕ
  pub blocknr : ℕ
  pub lock : Bool
  pub dirt : Bool
  pub uptodate : Bool

pub record State : Type 0 where
  pub free : List Bool
  pub queue : List Request

-- How a call goes on: it is done with the buffer and the state as given, or it sleeps on the
-- buffer's lock, or for a free request with the buffer locked.
pub data Made : Type 0 where
  finished : Buffer → State → Made
  waits_for_buffer : Made
  waits_for_request : Buffer → Made

abbrev pub request_for : Command → Buffer → Request
request_for c b = record {
  dev = b.dev;
  cmd = command_number c;
  sector = b.blocknr * 2 % 2 ^ 32;
  nr_sectors = 2;
  bh = some b.number;
}

-- `add_request` clears `b_dirt`.
pub queue_request : Command → ℕ → Buffer → State → Made
queue_request c i b s =
    finished (record b { dirt = false })
      (record { free = set s.free i false; queue = (add_request (request_for c b) s.queue).0 })

-- From the label `repeat` on, with the buffer locked.
pub take_request : Command → Buffer → State → Made
take_request c b s = elim (find_request s.free (slot_limit c)) [
  | some i ↦ queue_request c i b s
  | none ↦ if is_ahead c then finished (record b { lock = false }) s else waits_for_request b
]

pub make_request : Command → Buffer → State → Made
make_request c b s =
    if b.lock
    then if is_ahead c then finished b s else waits_for_buffer
    else if not (is_read c) && not b.dirt || is_read c && b.uptodate
    then finished (record b { lock = false }) s
    else take_request c (record b { lock = true }) s
