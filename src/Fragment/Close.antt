-- ===== src/Fragment/Close.antt =====
-- The closing of a layer that still waits for the rest of a ClientHello.
