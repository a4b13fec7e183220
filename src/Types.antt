-- ===== src/Types.antt =====
-- core/types.h: the address families.
use cbbncd.Base.{Bool, true, false}

pub data AddressFamily : Type 0 where
  no_family ipv4 ipv6 ipv4_ipv6 : AddressFamily

abbrev pub is_ipv4 : AddressFamily → Bool
is_ipv4 ipv4 = true
is_ipv4 _ = false

abbrev pub is_ipv6 : AddressFamily → Bool
is_ipv6 ipv6 = true
is_ipv6 _ = false
