-- ===== src/Rest.antt =====
-- How errors are answered: src/fb/presentation/rest/error_handlers.py and response.py.
pub mod Responses
pub mod Errors
pub mod Tests
