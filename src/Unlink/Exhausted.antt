-- ===== src/Unlink/Exhausted.antt =====
-- What `holepunch_do_unlink` does when no tag of the PPRF's depth is left, which nothing in
-- holepunch/kernel_module/dm-holepunch-main.c checks.
