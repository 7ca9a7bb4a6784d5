-- ===== src/Bookings/Found.antt =====
-- From a search to a hold: what a passenger finds can be held.
