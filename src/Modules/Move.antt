-- ===== src/Modules/Move.antt =====
-- module.c: where `move_multiboot_modules` puts the modules, by way of the temporary place or not.
