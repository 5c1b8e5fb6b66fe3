-- ===== src/RemotePtr/Tests.antt =====
-- Pointers at concrete machines and addresses.
use rabia_sandbox.Base.{◌≡◌, refl, ◌^◌, ◌-◌, ◌%◌}
use rabia_sandbox.RemotePtr.{make, id, address, advance, pointer_to}
use rabia_sandbox.RemotePtr.Laws.{make_fields}

make_runs : make 3 0x7fff_0000_1000 ≡ 0x3_7fff_0000_1000
unfolding make
make_runs = refl

advance_wraps : advance 16 (make 3 (2 ^ 48 - 16)) 2 ≡ make 3 16
unfolding make advance
advance_wraps = refl

pointer_to_runs : id (pointer_to 64) ≡ 0xffff
unfolding pointer_to id
pointer_to_runs = refl

make_fields_example :
    (id (make 65539 0x7fff_0000_1000) ≡ 65539 % 2 ^ 16)
    × (address (make 65539 0x7fff_0000_1000) ≡ 0x7fff_0000_1000 % 2 ^ 48)
make_fields_example = make_fields 65539 0x7fff_0000_1000
