-- ===== src/Config/Endpoints.antt =====
-- About `parse_endpoint` of src/config.cpp.
use tcp_load_balancer.Base.{
  ℕ, zero, suc, ◌+◌, ◌<◌, ◌≤◌, ◌≡◌, refl, true, false, [], ◌∷◌, ◌++◌, Option, none, some, arith,
  length, take, drop, append_nil, length-append,
}
use tcp_load_balancer.Base.Results.{ok, ◌>>=◌, >>=-ok}
use tcp_load_balancer.Config.Parser.{
  parse_endpoint, trim, parse_number, checked_endpoint, has_no_parts, position,
}
use tcp_load_balancer.Config.Printer.{endpoint_label}
use tcp_load_balancer.Config.{Endpoint}
use tcp_load_balancer.Text.Numbers.{
  to_string-AreDigits, stoul-to_string, to_string_solid, to_string_starts,
}
use tcp_load_balancer.Text.Searching.{digits-Absent, find_last-append, take-append, drop-append_suc}
use tcp_load_balancer.Text.Trimming.{
  trim-starts, starts_solid_pos, ends_solid_pos, IsBlank, IsSolid, starts_solid,
  starts_solid-append, ends_solid-append, trim-append,
}
use tcp_load_balancer.Text.{Bytes, to_string, find_last, ulong_mod}

-- A text can name this endpoint.
pub record IsPrintable (e : Endpoint) : Type 0 where
  pub host_solid : starts_solid e.host ≡ true
  pub port_pos : 0 < e.port
  pub port_bound : e.port ≤ 65535

pub endpoint_label-IsSolid : (e : Endpoint) → IsPrintable e → IsSolid (endpoint_label e)
unfolding endpoint_label
endpoint_label-IsSolid e v = record {
  starts = starts_solid-append e.host (b':' ∷ to_string e.port) v.host_solid;
  ends =
      ends_solid-append e.host (b':' ∷ to_string e.port)
        (ends_solid-append (b':' ∷ []) (to_string e.port) (to_string_solid e.port));
}

pub to_string-IsSolid : (n : ℕ) → IsSolid (to_string n)
to_string-IsSolid n = record { starts = to_string_starts n; ends = to_string_solid n }

pub parse_number-to_string : (n : ℕ) → n < ulong_mod → parse_number (to_string n) ≡ ok n
unfolding parse_number
parse_number-to_string n h =
    rw (← append_nil (to_string n)) (rw (stoul-to_string n [] h refl, parse_number) refl)

length-endpoint_label :
    (e : Endpoint) → length (endpoint_label e) ≡ length e.host + suc (length (to_string e.port))
unfolding endpoint_label
length-endpoint_label e = length-append e.host (b':' ∷ to_string e.port)

checked_endpoint_lem :
    (value input : Bytes) (e : Endpoint)
    → IsPrintable e
    → take (length e.host) input ≡ e.host
    → checked_endpoint value input (length e.host) e.port ≡ ok e
unfolding checked_endpoint
checked_endpoint_lem value input e v h = ground (arith, v, h)

-- A printable endpoint, its host and its port joined by a colon and with any spaces around, is
-- parsed back, whatever colons stand in the host.
pub parse_endpoint-endpoint_label :
    (e : Endpoint) (a b : Bytes)
    → IsPrintable e
    → IsBlank a
    → IsBlank b
    → parse_endpoint (a ++ (endpoint_label e ++ b)) ≡ ok e
unfolding parse_endpoint
parse_endpoint-endpoint_label e a b v ha hb =
    let value = a ++ (endpoint_label e ++ b) in
    let port = to_string e.port in
    let trimmed : trim value ≡ endpoint_label e =
      trim-append a (endpoint_label e) b ha (endpoint_label-IsSolid e v) hb in
    let found : find_last b':' (endpoint_label e) ≡ some (length e.host) =
      unfold endpoint_label in
      find_last-append b':' e.host port
        (digits-Absent b':' port refl (to_string-AreDigits e.port)) in
    let rest : drop (length e.host + 1) (endpoint_label e) ≡ port =
      unfold endpoint_label in drop-append_suc b':' e.host port in
    let host : take (length e.host) (endpoint_label e) ≡ e.host =
      unfold endpoint_label in take-append e.host (b':' ∷ port) in
    let parts : has_no_parts (some (length e.host)) (endpoint_label e) ≡ false = ground (
      arith,
      starts_solid_pos e.host v.host_solid,
      ends_solid_pos port (to_string_solid e.port),
      length-endpoint_label e,
    ) in
    let read : parse_number port ≡ ok e.port =
      parse_number-to_string e.port (omega (arith, v.port_bound)) in
    ground (
      arith,
      trimmed,
      found,
      parts,
      rest,
      read,
      checked_endpoint_lem value (endpoint_label e) e v host,
    )

starts_solid-take :
    (n : ℕ) (s : Bytes) → 0 < n → starts_solid s ≡ true → starts_solid (take n s) ≡ true
starts_solid-take zero s p h = elim p [ ]
starts_solid-take (suc n) [] p h = h
starts_solid-take (suc n) (c ∷ s) p h = h

checked_endpoint-IsPrintable :
    (value input : Bytes) (pos n : ℕ) (e : Endpoint)
    → starts_solid input ≡ true
    → 0 < pos
    → checked_endpoint value input pos n ≡ ok e
    → IsPrintable e
unfolding checked_endpoint
checked_endpoint-IsPrintable value input pos n e s p h = record {
  host_solid = ground (arith, h, starts_solid-take pos input p s);
  port_pos = ground (arith, h);
  port_bound = ground (arith, h);
}

-- What `parse_endpoint` accepts has a host that is not empty and does not start with a space, and
-- a port from 1 to 65535, so that its text is parsed back.
pub parse_endpoint-IsPrintable :
    (value : Bytes) (e : Endpoint) → parse_endpoint value ≡ ok e → IsPrintable e
unfolding parse_endpoint
parse_endpoint-IsPrintable value e h =
    let input = trim value in
    let colon = find_last b':' input in
    let pos = position colon in
    let parts : has_no_parts colon input ≡ false = ground (arith, h) in
    let bounds : (0 < pos) × (0 < length input) = of_parts colon input parts in
    let rest : (parse_number (drop (pos + 1) input) >>= checked_endpoint value input pos) ≡ ok e =
      ground (arith, h, parts) in
    let (n, _, checked) =
      >>=-ok (parse_number (drop (pos + 1) input)) (checked_endpoint value input pos) e rest in
    checked_endpoint-IsPrintable value input pos n e (unfold trim in trim-starts value bounds.1)
      bounds.0 checked
  where
    of_parts :
        (o : Option ℕ) (s : Bytes) → has_no_parts o s ≡ false → (0 < position o) × (0 < length s)
    of_parts none s k = cc
    of_parts (some p) s k = (ground arith, ground arith)
